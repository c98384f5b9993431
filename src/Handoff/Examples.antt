-- ===== src/Handoff/Examples.antt =====
-- Handoffs of src/specflow/handoff.
use specflow_agent.Prelude.{◌≡◌, refl, String, Option, none, some, [], ◌∷◌, ok, err, string_eq}
use specflow_agent.Prelude.Dict.{Dict, get}
use specflow_agent.Prelude.Json.{Value, Fields, str, obj, end, field, field_of}
use specflow_agent.Agents.Models.{AgentIdentity, design}
use specflow_agent.Handoff.{
  AgentHandoff, after_prefix, validate_content, validate_payload, hash_mismatch, audit_context,
}
use specflow_agent.Handoff.Integrity.{hash_of, accepted-Genuine}

abbrev sender : AgentIdentity
sender = record {
  agent_id = "a";
  role = design;
  version = "1";
  description = "d";
  prompt_id = "p";
  prompt_version = "1";
  input_schema_id = "in";
  output_schema_id = "out";
  tool_permissions = [];
}

abbrev fields : Fields
fields = field "agent_id" (str "a") (field "role" (str "design") (field "output" (obj end) end))

-- The canonical JSON of an object that names its sender, for the test.
abbrev canonical : Value → Option String
canonical (obj (field k (str s) fs)) = some s
canonical _ = none

abbrev sha256 : String → String
sha256 text = text

abbrev handoff : AgentHandoff
handoff = record {
  handoff_id = "h";
  from_agent_id = "a";
  to_agent_id = "b";
  source_output_schema_id = "out";
  target_input_schema_id = "in";
  payload_ref = "agent-outputs.json#a";
  input_hash = "";
  output_hash = some "a";
}

abbrev payloads : Dict String Value
payloads = ("a", obj fields) ∷ []

payload_is_accepted :
    validate_payload (λ v. hash_of sha256 (canonical v)) handoff sender payloads ≡ ok tt
unfolding validate_payload validate_content after_prefix get field_of
payload_is_accepted = refl

changed_is_refused :
    validate_payload
      (λ v. hash_of sha256 (canonical v))
      handoff
      sender
      (("a", obj (field "agent_id" (str "z") end)) ∷ [])
    ≡ err (hash_mismatch (audit_context handoff))
unfolding validate_payload validate_content after_prefix get field_of
changed_is_refused = refl

accepted-Genuine_example :
    (key : String) × (fs : Fields) × (after_prefix "agent-outputs.json#" handoff.payload_ref
      ≡ some key)
    × (get payloads key ≡ some (obj fs))
    × (canonical (obj fs) ≡ canonical (obj fields))
    × (field_of fs "agent_id" ≡ some (str "a"))
accepted-Genuine_example =
    accepted-Genuine canonical sha256 handoff sender payloads (obj fields) "a" refl refl
      (λ other same. same) payload_is_accepted
