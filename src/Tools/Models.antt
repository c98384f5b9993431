-- ===== src/Tools/Models.antt =====
-- src/specflow/tools/models.py. A constructor is a function into the record or the first error of its
-- checks. Mappings hold JSON values with keys that are texts, so the checks of types hold.
use specflow_agent.Prelude.{
  String, Bool, true, false, Option, none, some, [], ◌∷◌, Result, ok, ◌>>=◌, ◌>>◌, raise_if, not,
  ◌&&◌, ◌||◌, ◌==◌, string_eq, map_some,
}
use specflow_agent.Prelude.Dict.{Dict, put}
use specflow_agent.Prelude.Sort.{sort_by, str_leb}
use specflow_agent.Prelude.Text.{is_blank}
use specflow_agent.Prelude.Json.{Value}
use specflow_agent.Tools.Names.{is_tool_name, is_version}
use specflow_agent.Tools.Sanitization.{
  Patterns, sanitize_tool_text, sanitize_json_value, sanitize_mapping,
}

-- ToolValidationError, with what its message names
pub data ValidationError : Type 0 where
  bad_tool_name bad_version error_in_success no_error_message : ValidationError
  empty_field : String → ValidationError
  empty_key : ValidationError

-- ToolStatus
pub data ToolStatus : Type 0 where
  success failed : ToolStatus

pub record ToolMetadata : Type 0 where
  pub name : String
  pub version : String
  pub description : String
  pub input_model : String
  pub output_model : String
  pub deterministic : Bool
  pub read_only : Bool

-- _validate_tool_name
unfoldable pub validate_tool_name : String → Result ValidationError (Unit {0})
validate_tool_name name = raise_if (not (is_tool_name name)) bad_tool_name

-- ToolMetadata.__post_init__
unfoldable pub check_metadata : ToolMetadata → Result ValidationError (Unit {0})
unfolding validate_tool_name
check_metadata m = do
  validate_tool_name m.name
  raise_if (not (is_version m.version)) bad_version
  raise_if (is_blank m.description) (empty_field "description")
  raise_if (is_blank m.input_model) (empty_field "input_model")
  raise_if (is_blank m.output_model) (empty_field "output_model")

pub record ToolCall : Type 0 where
  pub call_id : String
  pub tool_name : String
  pub arguments : Dict String Value
  pub metadata : Dict String String

pub record ToolResult : Type 0 where
  pub call_id : String
  pub tool_name : String
  pub status : ToolStatus
  pub output : Dict String Value
  pub metadata : Dict String String
  pub error_type : Option String
  pub error_message : Option String
  pub requires_review : Bool

-- bool(text), where `None` is false
abbrev pub is_given : Option String → Bool
is_given none = false
is_given (some text) = not (text == "")

abbrev pub is_success : ToolStatus → Bool
is_success success = true
is_success failed = false

module _ (patterns : Patterns) where
  unfoldable pub normalize_entries :
      Dict String Value → Dict String Value → Result ValidationError (Dict String Value)
  normalize_entries [] done = ok done
  normalize_entries ((key, value) ∷ entries) done = do
    raise_if (is_blank key) empty_key
    normalize_entries entries
        (put done (sanitize_tool_text patterns key) (sanitize_json_value patterns value))

  -- _normalize_json_mapping
  unfoldable pub normalize_json_mapping :
      Dict String Value → Result ValidationError (Dict String Value)
  normalize_json_mapping entries = do
    normalized ← normalize_entries entries []
    ok (sort_by (λ a b. str_leb a.0 b.0) normalized)

  -- ToolCall.__post_init__
  unfoldable pub make_call : ToolCall → Result ValidationError ToolCall
  make_call c = do
    raise_if (is_blank c.call_id) (empty_field "call_id")
    validate_tool_name c.tool_name
    arguments ← normalize_json_mapping c.arguments
    ok (record {
      call_id = c.call_id;
      tool_name = c.tool_name;
      arguments = arguments;
      metadata = sanitize_mapping patterns c.metadata;
    })

  abbrev pub sanitized_result : ToolResult → Dict String Value → ToolResult
  sanitized_result r output = record {
    call_id = r.call_id;
    tool_name = r.tool_name;
    status = r.status;
    output = output;
    metadata = sanitize_mapping patterns r.metadata;
    error_type = r.error_type;
    error_message = map_some (sanitize_tool_text patterns) r.error_message;
    requires_review = r.requires_review;
  }

  abbrev pub carries_error : ToolResult → Bool
  carries_error r = is_given r.error_type || is_given r.error_message || r.requires_review

  -- ToolResult.__post_init__
  unfoldable pub make_result : ToolResult → Result ValidationError ToolResult
  make_result r = do
    raise_if (is_blank r.call_id) (empty_field "call_id")
    validate_tool_name r.tool_name
    output ← normalize_json_mapping r.output
    raise_if (is_success r.status && carries_error r) error_in_success
    raise_if (not (is_success r.status) && not (is_given r.error_message)) no_error_message
    ok (sanitized_result r output)

  -- ToolResult.failed, as the executor calls it
  abbrev pub failure_of : String → String → String → String → ToolResult
  failure_of call_id tool_name error_type error_message = record {
    call_id = call_id;
    tool_name = tool_name;
    status = failed;
    output = [];
    metadata = [];
    error_type = some error_type;
    error_message = some error_message;
    requires_review = true;
  }

  unfoldable pub make_failure :
      String → String → String → String → Result ValidationError ToolResult
  make_failure call_id tool_name error_type error_message =
      make_result (failure_of call_id tool_name error_type error_message)
