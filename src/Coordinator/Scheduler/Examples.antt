-- ===== src/Coordinator/Scheduler/Examples.antt =====
-- Runs of src/specflow/coordinator/scheduler.py.
use specflow_agent.Prelude.{
  ℕ, zero, suc, ◌≡◌, refl, String, true, false, Option, none, some, List, [], ◌∷◌, Result, ok, inr,
  string_eq, ◌+◌, arith,
}
use specflow_agent.Prelude.Dict.{Dict, get, put, has, update}
use specflow_agent.Prelude.Text.{is_blank}
use specflow_agent.Prelude.Multiset.{times, unique}
use specflow_agent.Plan.Models.{StructuralDelegationSpec, CompiledStructuralPlan}
use specflow_agent.Plan.Compiler.{compile, plan_of, agent_ids}
use specflow_agent.Plan.Compiler.Wiring.{depends}
use specflow_agent.Plan.Planner.{
  generate, repo_id, design_id, test_id, risk_id, synthesis_id, review_id,
}
use specflow_agent.Plan.Planner.Topology.{fixed_stages, generate-compiled}
use specflow_agent.Coordinator.Scheduler.{
  StageWorld, AgentContext, StageResult, absent, Executors, run_agent, execute, run_stages,
  run_stage, gather, submit, check_executors, check_deadline,
}
use specflow_agent.Coordinator.Scheduler.Stage.{AllHandOut}
use specflow_agent.Coordinator.Scheduler.Delivery.{output_in, dependency_delivered}
use specflow_agent.Coordinator.Scheduler.Orders.{ReadsByKey, outputs_same, SameOutputs}

abbrev stamp : String → String
stamp a = "12:00"

-- The clock reads 5, and the futures arrive in the given order.
abbrev world_of : List String → StageWorld
world_of order = record {
  now = 5;
  started_at = "11:59";
  completed_at = "12:01";
  submitted = stamp;
  completed = stamp;
  arrivals = order;
  timed_out = false;
}

abbrev first_world : ℕ → StageWorld
first_world zero = world_of (repo_id ∷ [])
first_world (suc zero) = world_of (test_id ∷ design_id ∷ risk_id ∷ [])
first_world (suc (suc zero)) = world_of (synthesis_id ∷ [])
first_world (suc (suc (suc n))) = world_of (review_id ∷ [])

abbrev one_more : Option ℕ → ℕ
one_more none = 1
one_more (some n) = n + 1

-- One more than the output of the analyst, and 1 when there is none.
abbrev count_seen : AgentContext ℕ ℕ → Result String ℕ
count_seen ctx = ok (one_more (get ctx.prior_outputs repo_id))

abbrev team : Executors ℕ ℕ
team =
    (repo_id, count_seen)
    ∷ (design_id, count_seen)
    ∷ (test_id, count_seen)
    ∷ (risk_id, count_seen)
    ∷ (synthesis_id, count_seen)
    ∷ (review_id, count_seen)
    ∷ []

abbrev hash_of : StructuralDelegationSpec → List (List String) → String
hash_of p stages = "c0ffee"

abbrev the_plan : CompiledStructuralPlan
the_plan = plan_of hash_of (generate "plan-1") fixed_stages

plan_compiles : compile hash_of (generate "plan-1") ≡ some (ok the_plan)
unfolding is_blank
plan_compiles = generate-compiled hash_of "plan-1" refl refl

first_run :
    (rs : List (StageResult ℕ)) × (execute team
        (some 9)
        first_world
        0
        absent
        the_plan.execution_stages
      ≡ ok rs)
unfolding execute run_stages run_stage gather submit check_executors check_deadline run_agent has
    get put update
first_run = (_, refl)

first_handed : AllHandOut first_world 0 the_plan.execution_stages
unfolding times
first_handed =
    (inr (λ a. refl), (inr (λ a. ground arith), (inr (λ a. refl), (inr (λ a. refl), tt))))

dependency_delivered_example :
    (seen : Dict String ℕ) × (y : ℕ) × (run_agent team
        (record { base = 0; prior_outputs = seen })
        synthesis_id
      ≡ ok y)
    × (output_in first_run.0 synthesis_id ≡ some y)
    × ((d : String)
        → depends (generate "plan-1").dependencies synthesis_id d ≡ true
        → (z : ℕ) × (output_in first_run.0 d ≡ some z) × (get seen d ≡ some z))
unfolding agent_ids generate unique
dependency_delivered_example =
    dependency_delivered hash_of (generate "plan-1") the_plan team (some 9) first_world 0 absent
      first_run.0 synthesis_id plan_compiles refl first_handed first_run.1

abbrev second_world : ℕ → StageWorld
second_world zero = world_of (repo_id ∷ [])
second_world (suc zero) = world_of (risk_id ∷ design_id ∷ test_id ∷ [])
second_world (suc (suc n)) = first_world (suc (suc n))

team-ReadsByKey : ReadsByKey team 0
unfolding run_agent get
team-ReadsByKey a seen seen' same = ground (arith, same repo_id)

outputs_same_example :
    (rs' : List (StageResult ℕ)) × (execute team none second_world 0 absent
        the_plan.execution_stages
      ≡ ok rs')
    × SameOutputs first_run.0 rs'
unfolding times check_deadline
outputs_same_example =
    outputs_same team 0 (some 9) none first_world second_world absent the_plan.execution_stages
      first_run.0 team-ReadsByKey first_handed
      (
        refl,
        refl,
        λ a. refl,
        (refl, refl, λ a. ground arith, (refl, refl, λ a. refl, (refl, refl, λ a. refl, tt))),
      )
      first_run.1
