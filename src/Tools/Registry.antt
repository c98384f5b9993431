-- ===== src/Tools/Registry.antt =====
-- src/specflow/tools/registry.py, and what src/specflow/tools/base.py asks of a tool.
use specflow_agent.Prelude.{
  String, Option, none, some, List, [], ◌∷◌, ◌++◌, Result, ok, err, ◌>>◌, raise_if, string_eq,
}
use specflow_agent.Prelude.Dict.{Dict, get, put, has, keys}
use specflow_agent.Prelude.Sort.{sort_by, str_leb}
use specflow_agent.Tools.Models.{ToolMetadata, ToolCall, ToolResult}

-- What Tool.execute does: it returns a result or something else, or raises.
pub record Raised : Type 0 where
  pub type_name : String
  pub message : String

pub data ToolReply : Type 0 where
  returned : ToolResult → ToolReply
  returned_other : ToolReply
  raised : Raised → ToolReply

-- Tool
pub record Tool : Type 0 where
  pub metadata : ToolMetadata
  pub execute : ToolCall → ToolReply

-- DuplicateToolError and ToolNotFoundError
pub data RegistryError : Type 0 where
  duplicate_tool tool_not_found : String → RegistryError

-- ToolRegistry: its `_tools`
abbrev pub ToolRegistry : Type 0
ToolRegistry = Dict String Tool

-- ToolRegistry.register
unfoldable pub register_tool : ToolRegistry → Tool → Result RegistryError ToolRegistry
register_tool r tool = do
  raise_if (has r tool.metadata.name) (duplicate_tool tool.metadata.name)
  ok (put r tool.metadata.name tool)

abbrev pub tool_or_raise : String → Option Tool → Result RegistryError Tool
tool_or_raise name none = err (tool_not_found name)
tool_or_raise name (some tool) = ok tool

-- ToolRegistry.get
unfoldable pub get_tool : ToolRegistry → String → Result RegistryError Tool
get_tool r name = tool_or_raise name (get r name)

abbrev pub metadata_at : Option Tool → List ToolMetadata
metadata_at none = []
metadata_at (some tool) = tool.metadata ∷ []

unfoldable pub describe : ToolRegistry → List String → List ToolMetadata
describe r [] = []
describe r (name ∷ names) = metadata_at (get r name) ++ describe r names

-- ToolRegistry.metadata
unfoldable pub metadata_of : ToolRegistry → List ToolMetadata
unfolding describe
metadata_of r = describe r (sort_by str_leb (keys r))
