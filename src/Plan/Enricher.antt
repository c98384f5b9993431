-- ===== src/Plan/Enricher.antt =====
-- src/specflow/plan/enricher.py. The provider's client, the ids of traces and the clock are arguments,
-- which may answer each call otherwise; so is `json.loads`, of which the code uses that it gives a
-- value or raises.
pub mod Fallbacks
use specflow_agent.Prelude.{
  ℕ, suc, String, Bool, Option, none, some, List, [], ◌∷◌, Result, ok, err, ◌>>=◌, ◌>>◌,
}
use specflow_agent.Prelude.Int.{pos}
use specflow_agent.Prelude.Text.{◌+++◌}
use specflow_agent.Prelude.Json.{
  Value, Fields, null, bool, int, float, str, arr, obj, nil, field_of, or_default, iterate,
}
use specflow_agent.Agents.Models.{
  Role, repository_analyst, design, test_strategy, risk_review, synthesis, review, AgentIdentity,
}
use specflow_agent.Llm.Models.{
  LlmResponseError, user, LlmMessage, check_message, LlmRequest, check_request, LlmResponse,
}
use specflow_agent.Plan.Models.{StructuralDelegationSpec}
use specflow_agent.Plan.Briefs.{
  enriched, EnrichmentProvenance, BriefError, check_provenance, SemanticTaskBrief, make_brief,
  degraded_default,
}

-- AgentRole.value
abbrev pub role_value : Role → String
role_value repository_analyst = "repository_analyst"
role_value design = "design"
role_value test_strategy = "test_strategy"
role_value risk_review = "risk_review"
role_value synthesis = "synthesis"
role_value review = "review"

-- What surrounds the calls: the n-th call has the number n.
pub record EnricherWorld : Type 0 where
  pub complete : ℕ → LlmRequest → Result String LlmResponse
  pub loads : String → Option Value
  pub trace_id : ℕ → String
  pub now : ℕ → String

-- SemanticPlanEnricher
pub record SemanticPlanEnricher : Type 0 where
  pub model : String
  pub provider : String

-- The exceptions that `_enrich_one` may raise
pub data EnrichError : Type 0 where
  bad_request : LlmResponseError → EnrichError
  call_failed : String → EnrichError
  bad_json not_an_object not_iterable : EnrichError
  bad_brief : BriefError → EnrichError

-- A raise of one kind, as a raise of another.
abbrev pub map_err {ℓ} : {E F : Type 0} {A : Type ℓ} → (E → F) → Result E A → Result F A
map_err f (ok a) = ok a
map_err f (err e) = err (f e)

abbrev pub or_err {ℓ} : {E : Type 0} {A : Type ℓ} → E → Option A → Result E A
or_err e none = err e
or_err e (some a) = ok a

-- _build_enrichment_prompt
unfoldable pub build_enrichment_prompt : String → String → String
build_enrichment_prompt agent_id role =
    "Generate a task brief for agent \"" +++ agent_id +++ "\" with role \"" +++ role
    +++ "\". Return JSON: {\"task_description\": \"...\", \"analysis_focus\": [...], \"evaluation_hints\": [...], \"repository_scope_hint\": \"...\"}"

-- data.get, which only a dict has
abbrev pub as_fields : Value → Result EnrichError Fields
as_fields (obj fs) = ok fs
as_fields _ = err not_an_object

abbrev pub request_of : SemanticPlanEnricher → String → LlmRequest
request_of self prompt_text = record {
  model = self.model;
  messages = record { role = user; content = prompt_text } ∷ [];
  temperature = pos 0;
  max_tokens = pos 1024;
  response_format = some "json";
}

abbrev pub provenance_of : SemanticPlanEnricher → EnricherWorld → ℕ → String → EnrichmentProvenance
provenance_of self world n role = record {
  provider = self.provider;
  model = self.model;
  prompt_id = "enrichment/" +++ role +++ "/v1";
  prompt_version = "1.0.0";
  trace_id = world.trace_id n;
  generated_at = world.now n;
}

abbrev pub full_brief :
    EnrichmentProvenance → String → Fields → List Value → List Value → SemanticTaskBrief
full_brief provenance agent_id fs focus hints = record {
  agent_id = agent_id;
  task_description = or_default (field_of fs "task_description") (str "");
  analysis_focus = focus;
  evaluation_hints = hints;
  repository_scope_hint = or_default (field_of fs "repository_scope_hint") (str "");
  enrichment_status = enriched;
  provenance = some provenance;
}

-- The brief of a parsed answer.
unfoldable pub read_fields :
    EnrichmentProvenance → String → Fields → Result EnrichError SemanticTaskBrief
read_fields provenance agent_id fs = do
  focus ← or_err not_iterable (iterate (or_default (field_of fs "analysis_focus") (arr nil)))
  hints ← or_err not_iterable (iterate (or_default (field_of fs "evaluation_hints") (arr nil)))
  map_err bad_brief (check_provenance provenance)
  map_err bad_brief (make_brief (full_brief provenance agent_id fs focus hints))

-- The brief of an answer, from `json.loads` on.
unfoldable pub read_answer :
    SemanticPlanEnricher
    → EnricherWorld
    → ℕ
    → String
    → String
    → String
    → Result EnrichError SemanticTaskBrief
read_answer self world n agent_id role content = do
  parsed ← or_err bad_json (world.loads content)
  fs ← as_fields parsed
  read_fields (provenance_of self world n role) agent_id fs

-- _enrich_one
unfoldable pub enrich_one :
    SemanticPlanEnricher
    → EnricherWorld
    → ℕ
    → String
    → String
    → Result EnrichError SemanticTaskBrief
enrich_one self world n agent_id role = do
  let request = request_of self (build_enrichment_prompt agent_id role)
  map_err bad_request
      (check_message (record { role = user; content = build_enrichment_prompt agent_id role }))
  map_err bad_request (check_request request)
  response ← map_err call_failed (world.complete n request)
  read_answer self world n agent_id role response.content

abbrev pub fallback_text : Role → String
fallback_text role = "Execute " +++ role_value role +++ " analysis for the given requirement."

-- except Exception: the degraded brief, whose constructor may raise
abbrev pub or_degraded :
    AgentIdentity → Result EnrichError SemanticTaskBrief → Result BriefError SemanticTaskBrief
or_degraded agent (ok brief) = ok brief
or_degraded agent (err e) = degraded_default agent.agent_id (fallback_text agent.role)

unfoldable pub enrich_from :
    SemanticPlanEnricher
    → EnricherWorld
    → ℕ
    → List AgentIdentity
    → Result BriefError (List SemanticTaskBrief)
enrich_from self world n [] = ok []
enrich_from self world n (agent ∷ agents) = do
  brief ← or_degraded agent (enrich_one self world n agent.agent_id (role_value agent.role))
  briefs ← enrich_from self world (suc n) agents
  ok (brief ∷ briefs)

-- SemanticPlanEnricher.enrich
unfoldable pub enrich :
    SemanticPlanEnricher
    → EnricherWorld
    → StructuralDelegationSpec
    → Result BriefError (List SemanticTaskBrief)
unfolding enrich_from
enrich self world spec = enrich_from self world 0 spec.agents
