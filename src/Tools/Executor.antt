-- ===== src/Tools/Executor.antt =====
-- src/specflow/tools/executor.py.
pub mod Replies
use specflow_agent.Prelude.{
  String, Bool, Option, none, some, Result, ok, err, ◌>>=◌, ◌>>◌, raise_if, not, ◌==◌, string_eq,
}
use specflow_agent.Prelude.Text.{◌+++◌}
use specflow_agent.Tools.Sanitization.{Patterns, sanitize_tool_text}
use specflow_agent.Tools.Models.{ValidationError, ToolCall, ToolResult, make_failure}
use specflow_agent.Tools.Registry.{
  Raised, ToolReply, returned, returned_other, raised, Tool, ToolRegistry, RegistryError, get_tool,
}

-- ToolExecutionError, raised and caught in `execute`
abbrev pub mismatch : String → Raised
mismatch message = record { type_name = "ToolExecutionError"; message = message }

-- _validate_result_matches_call. That the status is one of two holds by type.
unfoldable pub validate_result_matches_call : ToolCall → ToolResult → Result Raised (Unit {0})
validate_result_matches_call call result = do
  raise_if (not (result.call_id == call.call_id))
      (mismatch "ToolResult.call_id must match ToolCall.call_id")
  raise_if (not (result.tool_name == call.tool_name))
      (mismatch "ToolResult.tool_name must match ToolCall.tool_name")

-- The body of the second `try`
unfoldable pub accept_reply : ToolCall → ToolReply → Result Raised ToolResult
accept_reply call (returned result) = do validate_result_matches_call call result; ok result
accept_reply call returned_other = err (mismatch "Tool.execute must return ToolResult")
accept_reply call (raised error) = err error

module _ (patterns : Patterns) where
  -- except Exception
  abbrev pub or_failure : ToolCall → Result Raised ToolResult → Result ValidationError ToolResult
  or_failure call (ok result) = ok result
  or_failure call (err error) =
      make_failure patterns call.call_id call.tool_name error.type_name
        (sanitize_tool_text patterns error.message)

  abbrev pub run_tool : ToolCall → Result RegistryError Tool → Result ValidationError ToolResult
  run_tool call (ok tool) = or_failure call (accept_reply call (tool.execute call))
  run_tool call (err error) =
      make_failure patterns call.call_id call.tool_name "ToolNotFoundError"
        ("Tool not registered: " +++ call.tool_name)

  -- ToolExecutor.execute
  unfoldable pub execute : ToolRegistry → ToolCall → Result ValidationError ToolResult
  execute registry call = run_tool call (get_tool registry call.tool_name)
