-- ===== src/Llm/Models.antt =====
-- src/specflow/llm/models.py. A frozen dataclass is a record, and its checks a function into the
-- first error. The temperature counts thousandths. The role is a type, so its check holds.
use specflow_agent.Prelude.{
  String, Bool, true, false, Option, List, [], ◌∷◌, Result, ok, ◌>>◌, raise_if, not, ◌||◌,
}
use specflow_agent.Prelude.Int.{ℤ, pos, is_neg, lt_int, ◌+ℤ◌}
use specflow_agent.Prelude.Text.{is_blank}

-- LLMRole
pub data MessageRole : Type 0 where
  system user assistant : MessageRole

-- LLMResponseError, with the field that its message names
pub data LlmResponseError : Type 0 where
  invalid_field : String → LlmResponseError

pub record LlmMessage : Type 0 where
  pub role : MessageRole
  pub content : String

-- LLMMessage.__post_init__
unfoldable pub check_message : LlmMessage → Result LlmResponseError (Unit {0})
check_message m = raise_if (is_blank m.content) (invalid_field "content")

pub record LlmRequest : Type 0 where
  pub model : String
  pub messages : List LlmMessage
  pub temperature : ℤ
  pub max_tokens : ℤ
  pub response_format : Option String

abbrev pub no_messages : List LlmMessage → Bool
no_messages [] = true
no_messages (m ∷ ms) = false

-- LLMRequest.__post_init__
unfoldable pub check_request : LlmRequest → Result LlmResponseError (Unit {0})
check_request r = do
  raise_if (is_blank r.model) (invalid_field "model")
  raise_if (no_messages r.messages) (invalid_field "messages")
  raise_if (is_neg r.temperature || lt_int (pos 2000) r.temperature) (invalid_field "temperature")
  raise_if (not (lt_int (pos 0) r.max_tokens)) (invalid_field "max_tokens")

pub record LlmUsage : Type 0 where
  pub input_tokens : ℤ
  pub output_tokens : ℤ
  pub total_tokens : ℤ

-- LLMUsage.__post_init__
unfoldable pub make_usage : ℤ → ℤ → Result LlmResponseError LlmUsage
make_usage input_tokens output_tokens = do
  raise_if (is_neg input_tokens || is_neg output_tokens) (invalid_field "token counts")
  ok (record {
    input_tokens = input_tokens;
    output_tokens = output_tokens;
    total_tokens = input_tokens +ℤ output_tokens;
  })

pub record LlmResponse : Type 0 where
  pub content : String
  pub model : String
  pub usage : LlmUsage
  pub latency_ms : ℤ
  pub finish_reason : String

-- LLMResponse.__post_init__
unfoldable pub check_response : LlmResponse → Result LlmResponseError (Unit {0})
check_response r = do
  raise_if (is_blank r.content) (invalid_field "content")
  raise_if (is_blank r.model) (invalid_field "model")
  raise_if (is_neg r.latency_ms) (invalid_field "latency_ms")
  raise_if (is_blank r.finish_reason) (invalid_field "finish_reason")
