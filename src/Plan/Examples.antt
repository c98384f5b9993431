-- ===== src/Plan/Examples.antt =====
-- Runs of src/specflow/plan/compiler.py, validator.py and planner.py.
use specflow_agent.Prelude.{
  ℕ, ap, ◌≡◌, ◌≢◌, ◌<◌, refl, String, true, false, none, some, List, [], ◌∷◌, Result, ok, err,
  if◌then◌else◌, arith, contains, string_eq, ◌==◌,
}
use specflow_agent.Prelude.Text.{is_blank}
use specflow_agent.Agents.Models.{default_policy}
use specflow_agent.Plan.Models.{
  PlanError, cycle_detected, StructuralDelegationSpec, CompiledStructuralPlan,
}
use specflow_agent.Plan.Compiler.{agent_ids, compile, plan_of}
use specflow_agent.Plan.Compiler.Wiring.{depends}
use specflow_agent.Plan.Compiler.Indices.{total_times, stage_index}
use specflow_agent.Plan.Compiler.Order.{compile-Total, compiled-once, compiled-Earlier}
use specflow_agent.Plan.Compiler.Cycles.{compile-Acyclic}
use specflow_agent.Plan.Validator.{validate}
use specflow_agent.Plan.Validator.Accepts.{compiled-Valid}
use specflow_agent.Plan.Planner.{generate, fixed_topology_agents, repo_id, design_id}
use specflow_agent.Plan.Planner.Topology.{fixed_stages, generate-compiled}

abbrev hash : StructuralDelegationSpec → List (List String) → String
hash p stages = "h"

abbrev compiled : CompiledStructuralPlan
compiled = plan_of hash (generate "plan-v1") fixed_stages

not_blank : is_blank "plan-v1" ≡ false
unfolding is_blank
not_blank = refl

hash_not_blank : is_blank "h" ≡ false
unfolding is_blank
hash_not_blank = refl

generate-compiled_example : compile hash (generate "plan-v1") ≡ some (ok compiled)
generate-compiled_example = generate-compiled hash "plan-v1" not_blank hash_not_blank

compile-Total_example :
    (r : Result PlanError CompiledStructuralPlan) × (compile hash (generate "plan-v1") ≡ some r)
compile-Total_example = compile-Total hash (generate "plan-v1")

compiled-once_example :
    total_times "design-agent-v1" compiled.execution_stages
    ≡ (if contains (agent_ids (generate "plan-v1").agents) "design-agent-v1" then 1 else 0)
compiled-once_example =
    compiled-once hash (generate "plan-v1") compiled "design-agent-v1"
      (generate-compiled hash "plan-v1" not_blank hash_not_blank)

design_needs_analyst : depends (generate "plan-v1").dependencies design_id repo_id ≡ true
unfolding generate
design_needs_analyst = refl

compiled-Earlier_example :
    (i j : ℕ) × (stage_index compiled.execution_stages repo_id ≡ some i)
    × (stage_index compiled.execution_stages design_id ≡ some j)
    × (i < j)
compiled-Earlier_example =
    compiled-Earlier hash (generate "plan-v1") compiled design_id repo_id
      (generate-compiled hash "plan-v1" not_blank hash_not_blank) design_needs_analyst

compiled-Valid_example : validate compiled none ≡ ok tt
compiled-Valid_example =
    compiled-Valid hash (generate "plan-v1") compiled
      (generate-compiled hash "plan-v1" not_blank hash_not_blank)

-- A plan with one dependency.
abbrev one_edge : StructuralDelegationSpec
one_edge = record {
  plan_id = "p";
  agents = fixed_topology_agents;
  dependencies = record { agent_id = design_id; depends_on = repo_id ∷ [] } ∷ [];
  constraints = [];
  revision_policy = default_policy;
}

abbrev rank : String → ℕ
rank a = if a == repo_id then 0 else 1

rank-falls : (x d : String) → depends one_edge.dependencies x d ≡ true → rank d < rank x
rank-falls x d edge =
    let from_design : (design_id == x) ≡ true = ground arith in
    let to_repo : (d == repo_id) ≡ true = ground arith in
    let at_x = ap rank ((string_eq.beq_iff design_id x).0 from_design) in
    let at_d = ap rank ((string_eq.beq_iff d repo_id).0 to_repo) in omega (arith, at_x, at_d)

compile-Acyclic_example : compile hash one_edge ≢ some (err cycle_detected)
compile-Acyclic_example = compile-Acyclic hash one_edge rank rank-falls
