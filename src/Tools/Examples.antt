-- ===== src/Tools/Examples.antt =====
-- Calls of src/specflow/tools.
use specflow_agent.Prelude.{◌≡◌, refl, true, false, [], ◌∷◌, ok, err, string_eq, ◌⊎◌}
use specflow_agent.Prelude.Text.{is_blank}
use specflow_agent.Tools.Names.{is_tool_name}
use specflow_agent.Tools.Sanitization.{Patterns, sanitize_tool_text}
use specflow_agent.Tools.Models.{ToolCall, ToolResult, ToolMetadata, no_error_message}
use specflow_agent.Tools.Registry.{Raised, raised, Tool, ToolRegistry, get_tool}
use specflow_agent.Tools.Executor.{accept_reply, execute}
use specflow_agent.Tools.Executor.Replies.{IsCall, Matches, execute-Matches}

abbrev patterns : Patterns
patterns = record { redact = λ text. text; is_sensitive = λ key. false }

abbrev call : ToolCall
call = record { call_id = "c1"; tool_name = "read_file"; arguments = []; metadata = [] }

abbrev metadata : ToolMetadata
metadata = record {
  name = "read_file";
  version = "1.0.0";
  description = "Reads.";
  input_model = "In";
  output_model = "Out";
  deterministic = true;
  read_only = true;
}

-- `raise ValueError()`
abbrev silent_error : Raised
silent_error = record { type_name = "ValueError"; message = "" }

abbrev silent_tool : Tool
silent_tool = record { metadata = metadata; execute = λ c. raised silent_error }

abbrev registry : ToolRegistry
registry = ("read_file", silent_tool) ∷ []

call-IsCall : IsCall call
unfolding is_blank is_tool_name
call-IsCall = (refl, refl)

execute-Matches_example :
    ((r : ToolResult) × (execute patterns [] call ≡ ok r) × Matches call r)
    ⊎ ((tool : Tool) × (e : Raised) × (get_tool [] "read_file" ≡ ok tool)
        × (accept_reply call (tool.execute call) ≡ err e)
        × (sanitize_tool_text patterns e.message ≡ "")
        × (execute patterns [] call ≡ err no_error_message))
execute-Matches_example = execute-Matches patterns [] call call-IsCall
