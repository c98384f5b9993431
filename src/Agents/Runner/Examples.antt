-- ===== src/Agents/Runner/Examples.antt =====
-- The runner of src/specflow/agents/adapter.py.
use specflow_agent.Prelude.{
  ◌≡◌, refl, ℕ, true, some, [], ◌∷◌, Result, ok, err, nat_eq, ◌==◌, if◌then◌else◌,
}
use specflow_agent.Prelude.Int.{pos}
use specflow_agent.Prelude.Dict.{get}
use specflow_agent.Prelude.Text.{is_blank}
use specflow_agent.Prelude.Json.{parsed, Fields, str, obj, end, field, field_of}
use specflow_agent.Policy.Errors.{provider_timeout, is_retryable}
use specflow_agent.Agents.Models.{design, AgentIdentity}
use specflow_agent.Schema.{SchemaRegistry, get_model}
use specflow_agent.Llm.Models.{LlmRequest, LlmResponse, LlmUsage, check_request}
use specflow_agent.Agents.Prompts.{build_user_message, is_truthy}
use specflow_agent.Agents.Runner.{
  CallFailure, AgentRunner, RunnerWorld, succeeded, Envelope, classify_error, call, attempt_loop,
  after_attempts, messages_for, execute_with, execute,
}
use specflow_agent.Agents.Runner.Answers.{Rests, execute-Rests}

abbrev identity : AgentIdentity
identity = record {
  agent_id = "designer";
  role = design;
  version = "1";
  description = "Design it.";
  prompt_id = "p";
  prompt_version = "1";
  input_schema_id = "in";
  output_schema_id = "out";
  tool_permissions = [];
}

abbrev registry : SchemaRegistry
registry = record {
  models = ("out", record { identity = 0; name = "Out"; is_base_model = true }) ∷ [];
  frozen = true;
}

abbrev runner : AgentRunner
runner = record {
  identity = identity;
  schema_registry = some registry;
  system_prompt = "";
  model = "m";
  temperature = pos 0;
  max_tokens = pos 2048;
  max_retries = pos 1;
}

abbrev usage : LlmUsage
usage = record { input_tokens = pos 3; output_tokens = pos 4; total_tokens = pos 7 }

abbrev response : LlmResponse
response = record {
  content = "{}";
  model = "m";
  usage = usage;
  latency_ms = pos 1;
  finish_reason = "stop";
}

-- The first call times out.
abbrev reply : ℕ → LlmRequest → Result CallFailure LlmResponse
reply n request =
    if n == 0 then err (record { code = some provider_timeout; message = "late" }) else ok response

abbrev world : RunnerWorld
world = record {
  complete = reply;
  loads = λ text. parsed (obj end);
  dumps = λ v. "{}";
  model_json_schema = λ m. "{}";
  model_validate = λ m v. some v;
}

abbrev given : Fields
given = field "requirement" (str "Pay.") end

abbrev envelope : Envelope
envelope = record { agent_id = "designer"; role = design; answer = succeeded (obj end) "m" usage }

execute_answers : execute world runner given ≡ ok (envelope, 500 ∷ [])
unfolding execute get_model get execute_with messages_for field_of build_user_message is_truthy
    after_attempts attempt_loop call check_request is_blank is_retryable classify_error
execute_answers = refl

execute-Rests_example : Rests world runner given (obj end) usage
execute-Rests_example =
    execute-Rests world runner given envelope (500 ∷ []) (obj end) "m" usage execute_answers refl
