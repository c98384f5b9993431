-- ===== src/Plan/Planner/Topology.antt =====
-- src/specflow/plan/planner.py: the fixed topology, compiled.
use specflow_agent.Prelude.{String, ◌≡◌, refl, false, some, List, [], ◌∷◌, ok}
use specflow_agent.Prelude.Dict.{has, get, put}
use specflow_agent.Prelude.Text.{is_blank}
use specflow_agent.Prelude.Sort.{sort_by, insert_by, str_leb}
use specflow_agent.Prelude.Multiset.{unique}
use specflow_agent.Plan.Models.{StructuralDelegationSpec, check_compiled}
use specflow_agent.Plan.Compiler.{
  schedule, agent_ids, collect, check_known, set_defaults, levels, reverse_deps, link, link_all,
  relax, relax_stage, finish_plan, visited_count, compile, plan_of,
}
use specflow_agent.Plan.Planner.{
  generate, repo_id, design_id, test_id, risk_id, synthesis_id, review_id,
}

abbrev pub fixed_stages : List (List String)
fixed_stages =
    (repo_id ∷ [])
    ∷ (design_id ∷ risk_id ∷ test_id ∷ [])
    ∷ (synthesis_id ∷ [])
    ∷ (review_id ∷ [])
    ∷ []

-- The fixed topology, compiled with any id that is not blank and a hash that never is, has the
-- analyst, then design, risk review and test strategy, then synthesis, then review as its stages.
pub generate-compiled :
    (structure_hash : StructuralDelegationSpec → List (List String) → String) (plan_id : String)
    → is_blank plan_id ≡ false
    → is_blank (structure_hash (generate plan_id) fixed_stages) ≡ false
    → compile structure_hash (generate plan_id)
      ≡ some (ok (plan_of structure_hash (generate plan_id) fixed_stages))
unfolding compile generate collect check_known agent_ids unique set_defaults has get put schedule
    levels reverse_deps link_all link relax_stage relax finish_plan visited_count check_compiled
    sort_by insert_by str_leb
generate-compiled structure_hash plan_id named hashed = rw named (rw hashed refl)
