-- ===== src/Agents/Runner/Answers.antt =====
-- src/specflow/agents/adapter.py: what a success of a runner rests on.
use specflow_agent.Prelude.{
  ℕ, zero, suc, ◌+◌, ◌<◌, ◌≡◌, refl, sym, ap, ◌∙◌, String, true, false, Option, none, some, List,
  [], ◌∷◌, ◌++◌, Result, ok, err, min, ◌*◌, ◌^◌, arith, inl, inr, Bool-cases, Result-cases,
  Option-cases, >>=-eq-ok,
}
use specflow_agent.Prelude.Int.{ℤ, pos, negsuc, pos_part, ◌+ℤ◌, ◌≤ℤ◌}
use specflow_agent.Prelude.Json.{parsed, Parsed-cases, Value, Fields}
use specflow_agent.Schema.{SchemaModel, SchemaRegistry, get_model}
use specflow_agent.Llm.Models.{LlmMessage, LlmRequest, check_request, LlmUsage, LlmResponse}
use specflow_agent.Agents.Prompts.{ContextError}
use specflow_agent.Agents.Runner.{
  CallFailure, AgentRunner, RunnerWorld, succeeded, failed, schema_registry_unavailable,
  schema_not_found, Envelope, classify_error, Attempts, answered, gave_up, unanswered, request_of,
  call, is_last, attempt_loop, after_attempts, messages_for, execute_with, with_model,
  with_registry, execute, failed_result,
}

rounds_bound : (n : ℕ) (k : ℤ) → n < pos_part (k +ℤ pos 1) → pos n ≤ℤ k
rounds_bound n (pos k) h = ground (arith, h)
rounds_bound n (negsuc zero) h = ground (arith, h)
rounds_bound n (negsuc (suc k)) h = ground (arith, h)

module _ (world : RunnerWorld) (runner : AgentRunner) where
  call-complete :
      (n : ℕ) (request : LlmRequest) (response : LlmResponse)
      → call world runner n request ≡ ok response
      → world.complete n request ≡ ok response
  unfolding call
  call-complete n request response h = elim (Result-cases (check_request request)) [
    | inl (u, e) ↦ cc
    | inr (x, e) ↦ cc
  ]

  loop-none :
      (request : LlmRequest) (attempt : ℕ) (sleeps : List ℕ)
      → (attempt_loop world runner request zero attempt sleeps).0 ≡ unanswered
  unfolding attempt_loop
  loop-none request attempt sleeps = refl

  module _ (request : LlmRequest) (rounds attempt : ℕ) (sleeps : List ℕ) where
    loop-ok :
        (r : LlmResponse)
        → call world runner attempt request ≡ ok r
        → attempt_loop world runner request (suc rounds) attempt sleeps ≡ (answered r, sleeps)
    unfolding attempt_loop
    loop-ok r e = rw (e, attempt_loop) refl

    module _ (x : CallFailure) (e : call world runner attempt request ≡ err x) where
      loop-last :
          is_last world runner attempt (classify_error x) ≡ true
          → attempt_loop world runner request (suc rounds) attempt sleeps
            ≡ (gave_up (classify_error x), sleeps)
      unfolding attempt_loop
      loop-last last = rw (e, attempt_loop) (rw (last, attempt_loop) refl)

      loop-again :
          is_last world runner attempt (classify_error x) ≡ false
          → attempt_loop world runner request (suc rounds) attempt sleeps
            ≡ attempt_loop world runner request rounds
                (attempt + 1)
                (sleeps ++ min (500 * 2 ^ attempt) 5000 ∷ [])
      unfolding attempt_loop
      loop-again more = rw (e, attempt_loop) (rw (more, attempt_loop) refl)

  attempt_loop-answered :
      (request : LlmRequest) (rounds attempt : ℕ) (sleeps : List ℕ) (response : LlmResponse)
      → (attempt_loop world runner request rounds attempt sleeps).0 ≡ answered response
      → (n : ℕ) × (n < rounds + attempt) × (world.complete n request ≡ ok response)
  attempt_loop-answered request zero attempt sleeps response h =
      let other : unanswered ≡ answered response = sym (loop-none request attempt sleeps) ∙ h in cc
  attempt_loop-answered request (suc rounds) attempt sleeps response h =
      elim (Result-cases (call world runner attempt request)) [
        | inl (r, e) ↦
            let same : answered r ≡ answered response =
              sym (ap (λ p. p.0) (loop-ok request rounds attempt sleeps r e)) ∙ h in
            let replied : call world runner attempt request ≡ ok response = cc in
            let within : attempt < suc rounds + attempt = omega arith in
            (attempt, within, call-complete attempt request response replied)
        | inr (x, e) ↦ elim (Bool-cases (is_last world runner attempt (classify_error x))) [
          | inl last ↦
              let other : gave_up (classify_error x) ≡ answered response =
                sym (ap (λ p. p.0) (loop-last request rounds attempt sleeps x e last)) ∙ h in
              cc
          | inr more ↦
              let (n, within, replied) =
                attempt_loop-answered request rounds (attempt + 1)
                  (sleeps ++ min (500 * 2 ^ attempt) 5000 ∷ []) response
                  (sym (ap (λ p. p.0) (loop-again request rounds attempt sleeps x e more)) ∙ h) in
              let more_rounds : n < suc rounds + attempt = omega (arith, within) in
              (n, more_rounds, replied)
        ]
      ]

  -- What the answer of a success comes from: the response of a call within the retries, whose content
  -- is read and passes the model of the agent's output schema.
  pub record Rests (context : Fields) (output : Value) (usage : LlmUsage) : Type 0 where
    pub registry : SchemaRegistry
    pub output_model : SchemaModel
    pub registered : runner.schema_registry ≡ some registry
    pub found : get_model registry runner.identity.output_schema_id ≡ ok output_model
    pub messages : List LlmMessage
    pub built : messages_for world runner context output_model ≡ ok messages
    pub attempt : ℕ
    pub within : pos attempt ≤ℤ runner.max_retries
    pub response : LlmResponse
    pub replied : world.complete attempt (request_of world runner messages) ≡ ok response
    pub read : Value
    pub is_read : world.loads response.content ≡ parsed read
    pub is_valid : world.model_validate output_model read ≡ some output
    pub is_usage : response.usage ≡ usage

  after_attempts-cases :
      (m : SchemaModel) (attempts : Attempts) (output : Value) (model : String) (usage : LlmUsage)
      → (after_attempts world runner m attempts).answer ≡ succeeded output model usage
      → (response : LlmResponse) × (v : Value) × (attempts ≡ answered response)
        × (world.loads response.content ≡ parsed v)
        × (world.model_validate m v ≡ some output)
        × (response.usage ≡ usage)
  unfolding after_attempts
  after_attempts-cases m (answered response) output model usage h =
      elim (Parsed-cases (world.loads response.content)) [
        | inr (inl e) ↦ cc
        | inr (inr (x, e)) ↦ cc
        | inl (v, e) ↦ elim (Option-cases (world.model_validate m v)) [
          | inl e' ↦ cc
          | inr (o, e') ↦
              let same : succeeded o runner.model response.usage ≡ succeeded output model usage =
                cc in
              let is_output : o ≡ output = cc in
              let is_usage : response.usage ≡ usage = cc in
              (response, v, refl, e, e' ∙ ap some is_output, is_usage)
        ]
      ]
  after_attempts-cases m (gave_up code) output model usage h = cc
  after_attempts-cases m unanswered output model usage h = cc

  execute_with-Rests :
      (registry : SchemaRegistry) (m : SchemaModel) (context : Fields) (r : Envelope)
      (sleeps : List ℕ) (output : Value) (model : String) (usage : LlmUsage)
      → runner.schema_registry ≡ some registry
      → get_model registry runner.identity.output_schema_id ≡ ok m
      → execute_with world runner context m ≡ ok (r, sleeps)
      → r.answer ≡ succeeded output model usage
      → Rests context output usage
  unfolding execute_with
  execute_with-Rests registry m context r sleeps output model usage registered found h success =
      let (messages, built, h') = >>=-eq-ok (messages_for world runner context m) _ h in
      let rounds = pos_part (runner.max_retries +ℤ pos 1) in
      let attempts = (attempt_loop world runner (request_of world runner messages) rounds 0 []).0 in
      let same : after_attempts world runner m attempts ≡ r = cc in
      let (response, v, replies, is_read, is_valid, is_usage) =
        after_attempts-cases m attempts output model usage
          (ap (λ (e : Envelope). e.answer) same ∙ success) in
      let (n, within, replied) =
        attempt_loop-answered (request_of world runner messages) rounds 0 [] response replies in
      record {
        registry = registry;
        output_model = m;
        registered = registered;
        found = found;
        messages = messages;
        built = built;
        attempt = n;
        within = rounds_bound n runner.max_retries (omega (arith, within));
        response = response;
        replied = replied;
        read = v;
        is_read = is_read;
        is_valid = is_valid;
        is_usage = is_usage;
      }

  with_registry-Rests :
      (option : Option SchemaRegistry) (context : Fields) (r : Envelope) (sleeps : List ℕ)
      (output : Value) (model : String) (usage : LlmUsage)
      → runner.schema_registry ≡ option
      → with_registry world runner context option ≡ ok (r, sleeps)
      → r.answer ≡ succeeded output model usage
      → Rests context output usage
  with_registry-Rests none context r sleeps output model usage registered h success =
      let other : failed schema_registry_unavailable ≡ succeeded output model usage = cc in cc
  with_registry-Rests (some registry) context r sleeps output model usage registered h success =
      elim (Result-cases (get_model registry runner.identity.output_schema_id)) [
        | inl (m, found) ↦
            execute_with-Rests registry m context r sleeps output model usage registered found
              (sym (ap (with_model world runner context) found) ∙ h) success
        | inr (e, missing) ↦
            let given : Result ContextError (Envelope × List ℕ) =
              ok (failed_result world runner schema_not_found, []) in
            let rejected : given ≡ ok (r, sleeps) =
              sym (ap (with_model world runner context) missing) ∙ h in
            let other : failed schema_not_found ≡ succeeded output model usage = cc in cc
      ]

  -- When a runner answers with a success, its schema registry has a model for the output schema of its
  -- agent, one of at most max_retries + 1 calls of the provider on the messages of the context returned
  -- a response, and the output is what that model made of the response's content.
  pub execute-Rests :
      (context : Fields) (r : Envelope) (sleeps : List ℕ) (output : Value) (model : String)
      (usage : LlmUsage)
      → execute world runner context ≡ ok (r, sleeps)
      → r.answer ≡ succeeded output model usage
      → Rests context output usage
  unfolding execute
  execute-Rests context r sleeps output model usage h success =
      with_registry-Rests runner.schema_registry context r sleeps output model usage refl h success
