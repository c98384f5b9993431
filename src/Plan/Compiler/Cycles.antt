-- ===== src/Plan/Compiler/Cycles.antt =====
-- src/specflow/plan/compiler.py: the error for a cycle.
use specflow_agent.Prelude.{
  ℕ, suc, ◌<◌, ◌≡◌, ◌≢◌, sym, ap, ◌∙◌, String, true, some, List, [], ◌∷◌, string_eq, nat_eq,
  contains, err, length, arith, inl, inr, map,
}
use specflow_agent.Prelude.Dict.{put}
use specflow_agent.Prelude.Multiset.{unique, times-length, contains-times}
use specflow_agent.Prelude.Sort.{sort_by, str_leb}
use specflow_agent.Agents.Models.{AgentDependency}
use specflow_agent.Plan.Models.{cycle_detected, StructuralDelegationSpec, check_compiled}
use specflow_agent.Plan.Compiler.{
  DepMap, agent_ids, deps_of, reverse_deps, check_known, collect, visited_count, assemble,
  finish_plan, compile,
}
use specflow_agent.Plan.Compiler.Stages.{all_pushed}
use specflow_agent.Plan.Compiler.Wiring.{depends}
use specflow_agent.Plan.Compiler.Acyclic.{acyclic-all}
use specflow_agent.Plan.Compiler.Compiled.{Laid, compile-cases}
use specflow_agent.Plan.Compiler.Indices.{length-all_pushed}

check_known-no_cycle :
    (ids : List String) (a : String) (ds : List String) → check_known ids a ds ≢ err cycle_detected
unfolding check_known
check_known-no_cycle ids a [] = ground arith
check_known-no_cycle ids a (d ∷ ds) = ground (arith, check_known-no_cycle ids a ds)

collect-no_cycle :
    (ids seen : List String) (m : DepMap) (ds : List AgentDependency)
    → collect ids seen m ds ≢ err cycle_detected
unfolding collect
collect-no_cycle ids seen m [] = ground arith
collect-no_cycle ids seen m (d ∷ ds) = ground (
  arith,
  check_known-no_cycle ids d.agent_id d.depends_on,
  collect-no_cycle ids (d.agent_id ∷ seen) (put m d.agent_id (unique d.depends_on)) ds,
)

module _ (structure_hash : StructuralDelegationSpec → List (List String) → String) where
  assemble-no_cycle :
      (p : StructuralDelegationSpec) (stages : List (List String))
      → assemble structure_hash p stages ≢ err cycle_detected
  unfolding check_compiled
  assemble-no_cycle p stages = ground arith

  finish-no_cycle :
      (p : StructuralDelegationSpec) (ids : List String) (ss : List (List String))
      → visited_count ss ≡ length ids
      → finish_plan structure_hash p ids ss ≢ err cycle_detected
  unfolding finish_plan
  finish-no_cycle p ids ss full =
      ground (arith, full, assemble-no_cycle p (map (sort_by str_leb) ss))

  all_visited :
      (p : StructuralDelegationSpec) (m : DepMap) (ss : List (List String)) (rank : String → ℕ)
      → Laid p m ss
      → ((x d : String) → depends p.dependencies x d ≡ true → rank d < rank x)
      → visited_count ss ≡ length (agent_ids p.agents)
  all_visited p m ss rank laid falls =
      let ids = agent_ids p.agents in
      let done = all_pushed [] ss in
      let found = λ (x : String). λ (here : contains ids x ≡ true).
        acyclic-all ids (deps_of m) (reverse_deps m) done rank laid.graph laid.scheduled.total
          (λ y d edge. falls y d (sym (laid.edges y d) ∙ edge)) (suc (rank x)) x (omega arith)
          here in
      omega (
        arith,
        length-all_pushed [] ss,
        times-length done ids (λ z. ground (arith, laid.scheduled.total z, laid.graph.once z)),
        times-length ids done
            (λ z. ground (arith, laid.graph.once z, found z, contains-times z done)),
      )

  -- When a rank falls along every dependency, no cycle is reported.
  pub compile-Acyclic :
      (p : StructuralDelegationSpec) (rank : String → ℕ)
      → ((x d : String) → depends p.dependencies x d ≡ true → rank d < rank x)
      → compile structure_hash p ≢ some (err cycle_detected)
  compile-Acyclic p rank falls h = elim (compile-cases structure_hash p) [
    | inl (e, c, k) ↦
        let same : e ≡ cycle_detected = cc in
        collect-no_cycle (agent_ids p.agents) [] [] p.dependencies (c ∙ ap err same)
    | inr (m, ss, laid, k) ↦
        finish-no_cycle p (agent_ids p.agents) ss (all_visited p m ss rank laid falls) cc
  ]
