-- ===== src/Tools/Sanitization.antt =====
-- src/specflow/tools/sanitization.py. The patterns of credentials and of sensitive keys are arguments.
use Prim.Native.Char.{code}
use Prim.Native.String.{String}
use specflow_agent.Prelude.{Bool, [], ◌∷◌, ◌==◌, string_eq, if◌then◌else◌}
use specflow_agent.Prelude.Dict.{Dict, put}
use specflow_agent.Prelude.Sort.{sort_by, str_leb}
use specflow_agent.Prelude.Json.{
  Value, null, bool, int, float, str, arr, obj, Items, nil, item, Fields, end, field,
}
use specflow_agent.Executor.{strip_control, is_removed_control}

-- _redact_tool_secrets and _SENSITIVE_KEY_RE.search
pub record Patterns : Type 0 where
  pub redact : String → String
  pub is_sensitive : String → Bool

-- d[key] = value
unfoldable pub put_field : Fields → String → Value → Fields
put_field end key v = field key v end
put_field (field k w fs) key v = if k == key then field k v fs else field k w (put_field fs key v)

unfoldable pub remove_controls : String → String
remove_controls String.[] = String.[]
remove_controls (String.◌∷◌ c s) =
    let rest = remove_controls s in if is_removed_control (code c) then rest else String.◌∷◌ c rest

module _ (patterns : Patterns) where
  -- sanitize_tool_text
  unfoldable pub sanitize_tool_text : String → String
  sanitize_tool_text text = strip_control (patterns.redact text)

  -- sanitize_json_text
  unfoldable pub sanitize_json_text : String → String
  sanitize_json_text text = remove_controls (patterns.redact text)

  -- _sanitize_value_for_key
  unfoldable pub sanitize_value_for_key : String → String → String
  sanitize_value_for_key key value =
      if patterns.is_sensitive key then "<redacted>" else sanitize_tool_text value

  unfoldable pub sanitize_entries : Dict String String → Dict String String → Dict String String
  sanitize_entries [] done = done
  sanitize_entries ((key, value) ∷ entries) done =
      sanitize_entries entries
        (put done (sanitize_tool_text key) (sanitize_value_for_key key value))

  -- sanitize_mapping
  unfoldable pub sanitize_mapping : Dict String String → Dict String String
  sanitize_mapping entries = sanitize_entries entries []

  -- The fields with sanitized keys, a later one in place of an earlier one with the same key.
  unfoldable pub rename_fields : Dict String Value → Fields → Fields
  rename_fields [] done = done
  rename_fields ((key, value) ∷ entries) done =
      rename_fields entries (put_field done (sanitize_tool_text key) value)

  -- sanitize_json_value and _sanitize_json_value_for_key. The values of a mapping are sanitized before
  -- its keys are sorted, which gives the same.
  unfoldable mutual
    pub sanitize_json_value : Value → Value
    sanitize_json_value null = null
    sanitize_json_value (bool b) = bool b
    sanitize_json_value (int n) = int n
    sanitize_json_value (float text) = float text
    sanitize_json_value (str text) = str (sanitize_json_text text)
    sanitize_json_value (arr vs) = arr (sanitize_items vs)
    sanitize_json_value (obj fs) =
        obj (rename_fields (sort_by (λ a b. str_leb a.0 b.0) (sanitize_pairs fs)) end)

    pub sanitize_items : Items → Items
    sanitize_items nil = nil
    sanitize_items (item v vs) = item (sanitize_json_value v) (sanitize_items vs)

    pub sanitize_pairs : Fields → Dict String Value
    sanitize_pairs end = []
    sanitize_pairs (field key v fs) =
        (key, if patterns.is_sensitive key then str "<redacted>" else sanitize_json_value v)
        ∷ sanitize_pairs fs
