-- ===== src/Agents/Runner.antt =====
-- src/specflow/agents/adapter.py: `AgentRunner`. The provider, which may answer each call otherwise,
-- json and pydantic are arguments. Sleeps are counted in milliseconds.
pub mod Answers
mod Examples
use specflow_agent.Prelude.{
  ℕ, zero, suc, ◌+◌, ◌*◌, ◌^◌, min, String, Bool, true, false, Option, none, some, List, [], ◌∷◌,
  ◌++◌, map, any, not, ◌&&◌, ◌||◌, ◌==◌, string_eq, Result, ok, err, ◌>>=◌, ◌>>◌, if◌then◌else◌,
}
use specflow_agent.Prelude.Int.{ℤ, pos, lt_int, pos_part, ◌+ℤ◌}
use specflow_agent.Prelude.Text.{is_blank, ◌+++◌, codes, lower_code, has_part}
use specflow_agent.Prelude.Json.{
  Parsed, parsed, decode_error, other_error, Value, Fields, str, obj, field_of, or_default,
}
use specflow_agent.Policy.Errors.{
  ErrorCode, provider_timeout, provider_rate_limited, provider_connection_error,
  provider_server_error, provider_auth_failure, security_path_traversal, internal_unexpected,
  is_retryable,
}
use specflow_agent.Plan.Enricher.{role_value}
use specflow_agent.Schema.{SchemaError, SchemaModel, SchemaRegistry, get_model}
use specflow_agent.Llm.Models.{
  LlmResponseError, invalid_field, system, user, LlmMessage, LlmRequest, check_request, LlmUsage,
  LlmResponse,
}
use specflow_agent.Agents.Models.{Role, AgentIdentity}
use specflow_agent.Agents.Prompts.{ContextError, need_fields, prior_outputs_of, build_user_message}

-- An exception of a call: the code that an LLMError may have, and the text
pub record CallFailure : Type 0 where
  pub code : Option ErrorCode
  pub message : String

pub record AgentRunner : Type 0 where
  pub identity : AgentIdentity
  pub schema_registry : Option SchemaRegistry
  pub system_prompt : String
  pub model : String
  pub temperature : ℤ
  pub max_tokens : ℤ
  pub max_retries : ℤ

-- What surrounds a run: the n-th call of the provider has the number n.
pub record RunnerWorld : Type 0 where
  pub complete : ℕ → LlmRequest → Result CallFailure LlmResponse
  pub loads : String → Parsed
  pub dumps : Value → String
  pub model_json_schema : SchemaModel → String
  pub model_validate : SchemaModel → Value → Option Value

-- The codes of a failure envelope
pub data FailureCode : Type 0 where
  schema_registry_unavailable schema_not_found : FailureCode
  provider_failed : ErrorCode → FailureCode
  schema_validation_failed json_parse_failed agent_execution_failed : FailureCode

-- The envelopes of `execute`, beside the agent's id and role
pub data Answer : Type 0 where
  succeeded : (output : Value) (model : String) (usage : LlmUsage) → Answer
  failed : FailureCode → Answer

pub record Envelope : Type 0 where
  pub agent_id : String
  pub role : Role
  pub answer : Answer

abbrev pub mentions : List ℕ → String → Bool
mentions text part = has_part (codes part) text

-- the tests of _error_to_code on the lower-case text
unfoldable pub classify_text : List ℕ → ErrorCode
classify_text text =
    if any (mentions text) ("401" ∷ "auth" ∷ "unauthorized" ∷ [])
    then provider_auth_failure
    else if any (mentions text) ("429" ∷ "rate" ∷ [])
    then provider_rate_limited
    else if any (mentions text) ("timeout" ∷ "timed out" ∷ [])
    then provider_timeout
    else if mentions text "5" && any (mentions text) ("server" ∷ "500" ∷ "502" ∷ "503" ∷ [])
    then provider_server_error
    else if any (mentions text) ("connection" ∷ "network" ∷ [])
    then provider_connection_error
    else if any (mentions text) ("security" ∷ "path" ∷ "traversal" ∷ [])
    then security_path_traversal
    else internal_unexpected

abbrev pub code_or : Option ErrorCode → ErrorCode → ErrorCode
code_or none code = code
code_or (some own) code = own

-- _error_to_code
unfoldable pub classify_error : CallFailure → ErrorCode
classify_error e = code_or e.code (classify_text (map lower_code (codes e.message)))

-- The texts of LLMRequest.__post_init__
abbrev pub request_text : LlmResponseError → String
request_text (invalid_field name) =
    if name == "temperature"
    then "LLMRequest.temperature must be between 0 and 2"
    else if name == "max_tokens"
    then "LLMRequest.max_tokens must be positive"
    else "LLMRequest." +++ name +++ " must not be empty"

-- How the loop of attempts ended: with a response, with a code, or without a call
pub data Attempts : Type 0 where
  answered : LlmResponse → Attempts
  gave_up : ErrorCode → Attempts
  unanswered : Attempts

module _ (world : RunnerWorld) (runner : AgentRunner) where
  -- _failed_result
  abbrev pub failed_result : FailureCode → Envelope
  failed_result code = record {
    agent_id = runner.identity.agent_id;
    role = runner.identity.role;
    answer = failed code;
  }

  abbrev pub request_of : List LlmMessage → LlmRequest
  request_of messages = record {
    model = runner.model;
    messages = messages;
    temperature = runner.temperature;
    max_tokens = runner.max_tokens;
    response_format = some "json";
  }

  abbrev pub call_checked :
      ℕ → LlmRequest → Result LlmResponseError (Unit {0}) → Result CallFailure LlmResponse
  call_checked attempt request (err e) = err (record { code = none; message = request_text e })
  call_checked attempt request (ok u) = world.complete attempt request

  -- LLMRequest(...) and the call of the provider
  unfoldable pub call : ℕ → LlmRequest → Result CallFailure LlmResponse
  call attempt request = call_checked attempt request (check_request request)

  abbrev pub is_last : ℕ → ErrorCode → Bool
  is_last attempt code = not (is_retryable code) || not (lt_int (pos attempt) runner.max_retries)

  -- for attempt in range(self._max_retries + 1), with the sleeps
  unfoldable pub attempt_loop : LlmRequest → ℕ → ℕ → List ℕ → Attempts × List ℕ
  attempt_loop request zero attempt sleeps = (unanswered, sleeps)
  attempt_loop request (suc rounds) attempt sleeps = elim (call attempt request) [
    | ok response ↦ (answered response, sleeps)
    | err e ↦ elim (is_last attempt (classify_error e)) [
      | true ↦ (gave_up (classify_error e), sleeps)
      | false ↦
          attempt_loop request rounds (attempt + 1) (sleeps ++ min (500 * 2 ^ attempt) 5000 ∷ [])
    ]
  ]

  abbrev pub validated : LlmResponse → Option Value → Envelope
  validated response none = failed_result schema_validation_failed
  validated response (some output) = record {
    agent_id = runner.identity.agent_id;
    role = runner.identity.role;
    answer = succeeded output runner.model response.usage;
  }

  abbrev pub loaded : SchemaModel → LlmResponse → Parsed → Envelope
  loaded output_model response decode_error = failed_result json_parse_failed
  loaded output_model response (other_error e) = failed_result agent_execution_failed
  loaded output_model response (parsed document) =
      validated response (world.model_validate output_model document)

  -- `execute` from the loop on: without a call, `response` is unbound
  unfoldable pub after_attempts : SchemaModel → Attempts → Envelope
  after_attempts output_model (answered response) =
      loaded output_model response (world.loads response.content)
  after_attempts output_model (gave_up code) = failed_result (provider_failed code)
  after_attempts output_model unanswered = failed_result agent_execution_failed

  abbrev pub contract_text : SchemaModel → String
  contract_text output_model =
      "\n\n## Required business output contract\n"
      +++ "Return the business object only, without an execution envelope. "
      +++ "All summaries must contain non-whitespace text. "
      +++ "Follow the role's minimum content requirements and JSON Schema:\n"
      +++ world.model_json_schema output_model

  -- The messages of `execute`
  unfoldable pub messages_for : Fields → SchemaModel → Result ContextError (List LlmMessage)
  messages_for context output_model = do
    validated_input ← need_fields (or_default (field_of context "validated_input") (obj context))
    user_message ←
        build_user_message world.dumps (role_value runner.identity.role)
          (or_default (field_of context "task_description") (str runner.identity.description))
          (or_default (field_of validated_input "requirement") (str ""))
          (prior_outputs_of validated_input)
          (or_default (field_of validated_input "repository_evidence") (str ""))
    let message : LlmMessage = record {
      role = user;
      content = user_message +++ contract_text output_model;
    }
    ok (
        if is_blank runner.system_prompt
        then message ∷ []
        else record { role = system; content = runner.system_prompt } ∷ message ∷ [])

  -- `execute` with a model of the output
  unfoldable pub execute_with : Fields → SchemaModel → Result ContextError (Envelope × List ℕ)
  execute_with context output_model = do
    messages ← messages_for context output_model
    let (attempts, sleeps) =
        attempt_loop (request_of messages) (pos_part (runner.max_retries +ℤ pos 1)) 0 []
    ok (after_attempts output_model attempts, sleeps)

  abbrev pub with_model :
      Fields → Result SchemaError SchemaModel → Result ContextError (Envelope × List ℕ)
  with_model context (err e) = ok (failed_result schema_not_found, [])
  with_model context (ok output_model) = execute_with context output_model

  abbrev pub with_registry :
      Fields → Option SchemaRegistry → Result ContextError (Envelope × List ℕ)
  with_registry context none = ok (failed_result schema_registry_unavailable, [])
  with_registry context (some registry) =
      with_model context (get_model registry runner.identity.output_schema_id)

  -- AgentRunner.execute, with the sleeps
  unfoldable pub execute : Fields → Result ContextError (Envelope × List ℕ)
  execute context = with_registry context runner.schema_registry
