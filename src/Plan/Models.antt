-- ===== src/Plan/Models.antt =====
-- src/specflow/plan/models.py: the plan before its compilation and after it. A constructor is the
-- record behind the checks of `__post_init__`.
use specflow_agent.Prelude.{String, List, [], ◌∷◌, Bool, true, false, Result, ◌>>◌, raise_if}
use specflow_agent.Prelude.Text.{is_blank}
use specflow_agent.Agents.Models.{AgentIdentity, AgentDependency, AgentConstraints, RevisionPolicy}

-- PlanCompilationError and PlanValidationError, with what their messages name
pub data PlanError : Type 0 where
  empty_plan_id empty_agents empty_hash empty_stages cycle_detected : PlanError
  missing_in_stages missing_in_plan : List String → PlanError
  duplicate_dependency unknown_agent repeated_agent : String → PlanError
  unknown_dependency intra_stage_dependency : String → String → PlanError
  unknown_input_schema unknown_output_schema : String → String → PlanError

pub record StructuralDelegationSpec : Type 0 where
  pub plan_id : String
  pub agents : List AgentIdentity
  pub dependencies : List AgentDependency
  pub constraints : List AgentConstraints
  pub revision_policy : RevisionPolicy

-- `not xs`
abbrev pub is_empty {ℓ} : {A : Type ℓ} → List A → Bool
is_empty [] = true
is_empty (x ∷ xs) = false

-- StructuralDelegationSpec.__post_init__
unfoldable pub check_plan : StructuralDelegationSpec → Result PlanError (Unit {0})
check_plan p = do
  raise_if (is_blank p.plan_id) empty_plan_id
  raise_if (is_empty p.agents) empty_agents

pub record CompiledStructuralPlan : Type 0 where
  pub plan_id : String
  pub agents : List AgentIdentity
  pub dependencies : List AgentDependency
  pub execution_stages : List (List String)
  pub constraints : List AgentConstraints
  pub revision_policy : RevisionPolicy
  pub structure_hash : String

-- CompiledStructuralPlan.__post_init__
unfoldable pub check_compiled : CompiledStructuralPlan → Result PlanError (Unit {0})
check_compiled p = do
  raise_if (is_blank p.plan_id) empty_plan_id
  raise_if (is_empty p.agents) empty_agents
  raise_if (is_blank p.structure_hash) empty_hash
  raise_if (is_empty p.execution_stages) empty_stages
