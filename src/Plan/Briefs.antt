-- ===== src/Plan/Briefs.antt =====
-- src/specflow/plan/models.py: the briefs of the agents, and the plan that a run executes. The fields
-- of a brief that come from a provider's answer are unchecked JSON values.
use specflow_agent.Prelude.{
  ℕ, String, Bool, true, false, Option, none, List, [], map, keep, Result, ◌>>◌, raise_if, not, ok,
}
use specflow_agent.Prelude.Text.{is_blank}
use specflow_agent.Prelude.Json.{Value, str}
use specflow_agent.Agents.Models.{Role, AgentConstraints, RevisionPolicy}
use specflow_agent.Plan.Models.{is_empty}

-- EnrichmentStatus
pub data EnrichmentStatus : Type 0 where
  enriched degraded : EnrichmentStatus

pub record EnrichmentProvenance : Type 0 where
  pub provider : String
  pub model : String
  pub prompt_id : String
  pub prompt_version : String
  pub trace_id : String
  pub generated_at : String

-- The exceptions of the constructors, with the field that they name
pub data BriefError : Type 0 where
  empty_field : String → BriefError

-- EnrichmentProvenance.__post_init__
unfoldable pub check_provenance : EnrichmentProvenance → Result BriefError (Unit {0})
check_provenance p = do
  raise_if (is_blank p.provider) (empty_field "provider")
  raise_if (is_blank p.model) (empty_field "model")
  raise_if (is_blank p.prompt_id) (empty_field "prompt_id")
  raise_if (is_blank p.prompt_version) (empty_field "prompt_version")
  raise_if (is_blank p.trace_id) (empty_field "trace_id")
  raise_if (is_blank p.generated_at) (empty_field "generated_at")

pub record SemanticTaskBrief : Type 0 where
  pub agent_id : String
  pub task_description : Value
  pub analysis_focus : List Value
  pub evaluation_hints : List Value
  pub repository_scope_hint : Value
  pub enrichment_status : EnrichmentStatus
  pub provenance : Option EnrichmentProvenance

-- SemanticTaskBrief.__post_init__, before the record
unfoldable pub make_brief : SemanticTaskBrief → Result BriefError SemanticTaskBrief
make_brief b = do raise_if (is_blank b.agent_id) (empty_field "agent_id"); ok b

abbrev pub degraded_brief : String → String → SemanticTaskBrief
degraded_brief agent_id task_description = record {
  agent_id = agent_id;
  task_description = str task_description;
  analysis_focus = [];
  evaluation_hints = [];
  repository_scope_hint = str "";
  enrichment_status = degraded;
  provenance = none;
}

-- SemanticTaskBrief.degraded_default, with its defaults
unfoldable pub degraded_default : String → String → Result BriefError SemanticTaskBrief
unfolding make_brief
degraded_default agent_id task_description = make_brief (degraded_brief agent_id task_description)

pub record AgentTask : Type 0 where
  pub agent_id : String
  pub role : Role
  pub stage : ℕ
  pub depends_on : List String
  pub constraints : AgentConstraints
  pub task_brief : SemanticTaskBrief

abbrev pub is_enriched : EnrichmentStatus → Bool
is_enriched enriched = true
is_enriched degraded = false

-- AgentTask.enriched
unfoldable pub task_enriched : AgentTask → Bool
task_enriched t = is_enriched t.task_brief.enrichment_status

pub record EffectiveDelegationPlan : Type 0 where
  pub plan_id : String
  pub run_id : String
  pub structure_hash : String
  pub semantic_brief_hash : String
  pub effective_plan_hash : String
  pub stages : List (List String)
  pub tasks : List AgentTask
  pub revision_policy : RevisionPolicy
  pub generated_at : String

-- EffectiveDelegationPlan.degraded_agents
unfoldable pub degraded_agents : EffectiveDelegationPlan → List String
degraded_agents p = map (λ t. t.agent_id) (keep (λ t. not (task_enriched t)) p.tasks)

-- EffectiveDelegationPlan.enriched
unfoldable pub plan_enriched : EffectiveDelegationPlan → Bool
plan_enriched p = is_empty (degraded_agents p)
