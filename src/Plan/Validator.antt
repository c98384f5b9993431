-- ===== src/Plan/Validator.antt =====
-- src/specflow/plan/validator.py: `PlanValidator`. A set is a list, of which one element is reported in
-- an order that the source leaves open. The registry of schemas is asked for an id only.
pub mod Accepts
use specflow_agent.Prelude.{
  String, Bool, Option, none, some, List, [], ◌∷◌, ◌++◌, map, ◌==◌, string_eq, contains, Result, ok,
  err, ◌>>=◌, ◌>>◌, raise_if, not, ◌&&◌, keep,
}
use specflow_agent.Prelude.Multiset.{unique}
use specflow_agent.Prelude.Sort.{sort_by, str_leb}
use specflow_agent.Agents.Models.{AgentIdentity, AgentDependency}
use specflow_agent.Plan.Models.{
  PlanError, missing_in_stages, missing_in_plan, repeated_agent, intra_stage_dependency,
  unknown_input_schema, unknown_output_schema, CompiledStructuralPlan, is_empty,
}

-- a - b, on sets
abbrev pub difference : List String → List String → List String
difference xs ys = keep (λ x. not (contains ys x)) xs

abbrev pub concat : List (List String) → List String
concat [] = []
concat (s ∷ ss) = s ++ concat ss

-- _check_agent_set_identity
unfoldable pub check_agent_set_identity : CompiledStructuralPlan → Result PlanError (Unit {0})
check_agent_set_identity plan = do
  let plan_ids = unique (map (λ a. a.agent_id) plan.agents)
  let stage_ids = unique (concat plan.execution_stages)
  let in_stages = difference plan_ids stage_ids
  let in_plan = difference stage_ids plan_ids
  raise_if (not (is_empty in_stages)) (missing_in_stages (sort_by str_leb in_stages))
  raise_if (not (is_empty in_plan)) (missing_in_plan (sort_by str_leb in_plan))

-- The inner loop of `_check_no_duplicate_across_stages`, with `seen`.
unfoldable pub see_stage : List String → List String → Result PlanError (List String)
see_stage seen [] = ok seen
see_stage seen (agent_id ∷ stage) = do
  raise_if (contains seen agent_id) (repeated_agent agent_id)
  see_stage (agent_id ∷ seen) stage

unfoldable pub see_stages : List String → List (List String) → Result PlanError (List String)
see_stages seen [] = ok seen
see_stages seen (s ∷ ss) = do seen' ← see_stage seen s; see_stages seen' ss

-- _check_no_duplicate_across_stages
unfoldable pub check_no_duplicate_across_stages :
    CompiledStructuralPlan → Result PlanError (Unit {0})
check_no_duplicate_across_stages plan = do seen ← see_stages [] plan.execution_stages; ok tt

-- dep_pairs
abbrev pub pairs_of : List AgentDependency → List (String × String)
pairs_of [] = []
pairs_of (d ∷ ds) = map (λ dep_id. (d.agent_id, dep_id)) d.depends_on ++ pairs_of ds

-- The loop over `dep_pairs`.
unfoldable pub check_pairs : List String → List (String × String) → Result PlanError (Unit {0})
check_pairs stage [] = ok tt
check_pairs stage ((a, d) ∷ pairs) = do
  raise_if (contains stage a && contains stage d) (intra_stage_dependency a d)
  check_pairs stage pairs

unfoldable pub check_stages :
    List (List String) → List (String × String) → Result PlanError (Unit {0})
check_stages [] pairs = ok tt
check_stages (s ∷ ss) pairs = do check_pairs s pairs; check_stages ss pairs

-- _check_no_intra_stage_dependencies
unfoldable pub check_no_intra_stage_dependencies :
    CompiledStructuralPlan → Result PlanError (Unit {0})
check_no_intra_stage_dependencies plan =
    check_stages plan.execution_stages (pairs_of plan.dependencies)

-- _check_schema_ids
unfoldable pub check_schema_ids : (String → Bool) → List AgentIdentity → Result PlanError (Unit {0})
check_schema_ids registered [] = ok tt
check_schema_ids registered (a ∷ agents) = do
  raise_if (not (registered a.input_schema_id)) (unknown_input_schema a.agent_id a.input_schema_id)
  raise_if (not (registered a.output_schema_id))
      (unknown_output_schema a.agent_id a.output_schema_id)
  check_schema_ids registered agents

abbrev pub check_registry :
    Option (String → Bool) → List AgentIdentity → Result PlanError (Unit {0})
check_registry none agents = ok tt
check_registry (some registered) agents = check_schema_ids registered agents

-- PlanValidator.validate
unfoldable pub validate :
    CompiledStructuralPlan → Option (String → Bool) → Result PlanError (Unit {0})
validate plan schema_registry = do
  check_agent_set_identity plan
  check_no_duplicate_across_stages plan
  check_no_intra_stage_dependencies plan
  check_registry schema_registry plan.agents
