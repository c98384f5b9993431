-- ===== src/Plan/Enricher/Fallbacks.antt =====
-- src/specflow/plan/enricher.py: what a failed call leaves.
use specflow_agent.Prelude.{
  ℕ, suc, ◌≡◌, refl, subst, String, false, none, some, List, [], ◌∷◌, Result, ok, err, ◌>>=◌, ◌>>◌,
  >>=-eq-ok, raise_if, Result-cases, inl, inr, ◌⊎◌, All,
}
use specflow_agent.Prelude.Text.{is_blank}
use specflow_agent.Prelude.Json.{Value, Fields, arr, nil, iterate, field_of, or_default}
use specflow_agent.Agents.Models.{AgentIdentity}
use specflow_agent.Llm.Models.{LlmResponse, LlmMessage, check_message, check_request, user}
use specflow_agent.Plan.Models.{StructuralDelegationSpec}
use specflow_agent.Plan.Briefs.{
  enriched, degraded, EnrichmentProvenance, SemanticTaskBrief, make_brief, degraded_default,
  degraded_brief, empty_field, check_provenance,
}
use specflow_agent.Plan.Enricher.{
  EnricherWorld, SemanticPlanEnricher, EnrichError, bad_json, not_iterable, bad_brief, bad_request,
  call_failed, map_err, or_err, as_fields, provenance_of, full_brief, read_fields, fallback_text,
  request_of, build_enrichment_prompt, read_answer, enrich_one, role_value, or_degraded,
  enrich_from, enrich,
}

-- A brief with the data of a call that went well.
pub record IsFull (self : SemanticPlanEnricher) (agent_id : String) (b : SemanticTaskBrief)
    : Type 0 where
  pub named : b.agent_id ≡ agent_id
  pub status : b.enrichment_status ≡ enriched
  pub origin :
      (p : EnrichmentProvenance) × (b.provenance ≡ some p)
      × (p.provider ≡ self.provider)
      × (p.model ≡ self.model)
      × (check_provenance p ≡ ok tt)

-- A brief that stands for a call that failed.
pub record IsDegraded (agent_id : String) (b : SemanticTaskBrief) : Type 0 where
  pub named : b.agent_id ≡ agent_id
  pub status : b.enrichment_status ≡ degraded
  pub origin : b.provenance ≡ none
  pub focus : b.analysis_focus ≡ []

-- A wrapped result that returned has returned.
pub map_err-ok {ℓ} :
    {F E : Type 0} {A : Type ℓ} (f : E → F) (r : Result E A) {a : A} → map_err f r ≡ ok a → r ≡ ok a
map_err-ok f (ok a) h = cc
map_err-ok f (err e) h = cc

make_brief-same : (c b : SemanticTaskBrief) → make_brief c ≡ ok b → c ≡ b
unfolding make_brief
make_brief-same c b h =
    let (u, named, same) =
      >>=-eq-ok (raise_if (is_blank c.agent_id) (empty_field "agent_id")) (λ _. ok c) h in
    cc

read_fields-IsFull :
    (self : SemanticPlanEnricher) (p : EnrichmentProvenance) (agent_id : String) (fs : Fields)
    (b : SemanticTaskBrief)
    → p.provider ≡ self.provider
    → p.model ≡ self.model
    → read_fields p agent_id fs ≡ ok b
    → IsFull self agent_id b
unfolding read_fields
read_fields-IsFull self p agent_id fs b provider model h =
    let finish = λ (focus : List Value) (hints : List Value).
      map_err bad_brief (check_provenance p)
      >> map_err bad_brief (make_brief (full_brief p agent_id fs focus hints)) in
    let hints_value = or_default (field_of fs "evaluation_hints") (arr nil) in
    let (focus, read, h1) =
      >>=-eq-ok
        (or_err not_iterable (iterate (or_default (field_of fs "analysis_focus") (arr nil))))
        (λ focus. or_err not_iterable (iterate hints_value) >>= finish focus) h in
    let (hints, read', h2) =
      >>=-eq-ok (or_err not_iterable (iterate hints_value)) (finish focus) h1 in
    let (u, sound, h3) =
      >>=-eq-ok (map_err bad_brief (check_provenance p))
        (λ _. map_err bad_brief (make_brief (full_brief p agent_id fs focus hints))) h2 in
    let brief = full_brief p agent_id fs focus hints in
    let same = make_brief-same brief b (map_err-ok bad_brief (make_brief brief) h3) in
    subst (IsFull self agent_id) same (record {
      named = refl;
      status = refl;
      origin = (p, refl, provider, model, map_err-ok bad_brief (check_provenance p) sound);
    })

read_answer-IsFull :
    (self : SemanticPlanEnricher) (world : EnricherWorld) (n : ℕ) (agent_id role content : String)
    (b : SemanticTaskBrief)
    → read_answer self world n agent_id role content ≡ ok b
    → IsFull self agent_id b
unfolding read_answer
read_answer-IsFull self world n agent_id role content b h =
    let finish = λ (fs : Fields). read_fields (provenance_of self world n role) agent_id fs in
    let (parsed, loaded, h1) =
      >>=-eq-ok (or_err bad_json (world.loads content)) (λ parsed. as_fields parsed >>= finish) h in
    let (fs, is_object, h2) = >>=-eq-ok (as_fields parsed) finish h1 in
    read_fields-IsFull self (provenance_of self world n role) agent_id fs b refl refl h2

enrich_one-IsFull :
    (self : SemanticPlanEnricher) (world : EnricherWorld) (n : ℕ) (agent_id role : String)
    (b : SemanticTaskBrief)
    → enrich_one self world n agent_id role ≡ ok b
    → IsFull self agent_id b
unfolding enrich_one
enrich_one-IsFull self world n agent_id role b h =
    let message : LlmMessage = record {
      role = user;
      content = build_enrichment_prompt agent_id role;
    } in
    let request = request_of self (build_enrichment_prompt agent_id role) in
    let answer = λ (r : LlmResponse). read_answer self world n agent_id role r.content in
    let (u, sound, h1) =
      >>=-eq-ok (map_err bad_request (check_message message))
        (λ _.
          map_err bad_request (check_request request)
          >> (map_err call_failed (world.complete n request) >>= answer))
        h in
    let (v, sound', h2) =
      >>=-eq-ok (map_err bad_request (check_request request))
        (λ _. map_err call_failed (world.complete n request) >>= answer) h1 in
    let (response, replied, h3) =
      >>=-eq-ok (map_err call_failed (world.complete n request)) answer h2 in
    read_answer-IsFull self world n agent_id role response.content b h3

-- The brief of an agent: full when the call went well, and else degraded.
abbrev pub Answered :
    SemanticPlanEnricher → EnricherWorld → ℕ → AgentIdentity → SemanticTaskBrief → Type 0
Answered self world n agent b =
    ((enrich_one self world n agent.agent_id (role_value agent.role) ≡ ok b)
      × IsFull self agent.agent_id b)
    ⊎ ((e : EnrichError) × (enrich_one self world n agent.agent_id (role_value agent.role) ≡ err e)
        × IsDegraded agent.agent_id b)

abbrev pub AllAnswered :
    SemanticPlanEnricher → EnricherWorld → ℕ → List AgentIdentity → List SemanticTaskBrief → Type 0
AllAnswered self world n [] [] = Unit
AllAnswered self world n (a ∷ as') (b ∷ bs) =
    Answered self world n a b × AllAnswered self world (suc n) as' bs
AllAnswered self world n [] (b ∷ bs) = ⊥
AllAnswered self world n (a ∷ as') [] = ⊥

or_degraded-Answered :
    (self : SemanticPlanEnricher) (world : EnricherWorld) (n : ℕ) (agent : AgentIdentity)
    → is_blank agent.agent_id ≡ false
    → (b : SemanticTaskBrief) × (or_degraded agent
          (enrich_one self world n agent.agent_id (role_value agent.role))
        ≡ ok b)
      × Answered self world n agent b
unfolding degraded_default
or_degraded-Answered self world n agent named =
    elim (Result-cases (enrich_one self world n agent.agent_id (role_value agent.role))) [
      | inl (b, h) ↦ (
        b,
        rw h refl,
        inl (h, enrich_one-IsFull self world n agent.agent_id (role_value agent.role) b h),
      )
      | inr (e, h) ↦ (
        degraded_brief agent.agent_id (fallback_text agent.role),
        rw h (rw named refl),
        inr (e, h, record { named = refl; status = refl; origin = refl; focus = refl }),
      )
    ]

enrich_from-AllAnswered :
    (self : SemanticPlanEnricher) (world : EnricherWorld) (n : ℕ) (agents : List AgentIdentity)
    → All (λ (a : AgentIdentity). is_blank a.agent_id ≡ false) agents
    → (bs : List SemanticTaskBrief) × (enrich_from self world n agents ≡ ok bs)
      × AllAnswered self world n agents bs
unfolding enrich_from
enrich_from-AllAnswered self world n [] named = ([], refl, tt)
enrich_from-AllAnswered self world n (agent ∷ agents) named =
    let (b, here, answered) = or_degraded-Answered self world n agent named.0 in
    let (bs, later, all) = enrich_from-AllAnswered self world (suc n) agents named.1 in
    (b ∷ bs, rw here (rw later refl), (answered, all))

-- The enrichment of a plan whose agents have ids that are not blank never raises, whatever the
-- provider does. It gives one brief for each agent, in order: a full one, with a valid provenance
-- that names the provider and the model, when the call of that agent went well, and else a degraded
-- one without provenance; a failed call changes no other agent's brief.
pub enrich-AllAnswered :
    (self : SemanticPlanEnricher) (world : EnricherWorld) (spec : StructuralDelegationSpec)
    → All (λ (a : AgentIdentity). is_blank a.agent_id ≡ false) spec.agents
    → (bs : List SemanticTaskBrief) × (enrich self world spec ≡ ok bs)
      × AllAnswered self world 0 spec.agents bs
unfolding enrich
enrich-AllAnswered self world spec named = enrich_from-AllAnswered self world 0 spec.agents named
