-- ===== src/Handoff.antt =====
-- src/specflow/handoff: the checks before an agent gets the output of another. A payload is a JSON
-- value; the hash of its canonical JSON is an argument, `none` where `json.dumps` raises.
pub mod Integrity
mod Examples
use Prim.Native.Char.{code}
use specflow_agent.Prelude.{
  String, Bool, true, false, Option, none, some, Result, ok, err, ◌>>=◌, ◌>>◌, raise_if, not, ◌&&◌,
  ◌||◌, ◌==◌, nat_eq, string_eq, if◌then◌else◌,
}
use specflow_agent.Prelude.Dict.{Dict, get}
use specflow_agent.Prelude.Json.{Value, Fields, str, obj, null, bool, int, float, arr, field_of}
use specflow_agent.Agents.Models.{AgentIdentity}

pub record AgentHandoff : Type 0 where
  pub handoff_id : String
  pub from_agent_id : String
  pub to_agent_id : String
  pub source_output_schema_id : String
  pub target_input_schema_id : String
  pub payload_ref : String
  pub input_hash : String
  pub output_hash : Option String

pub record AgentMessage : Type 0 where
  pub message_id : String
  pub handoff_id : String
  pub sender_agent_id : String
  pub receiver_agent_id : String
  pub content_type : String
  pub payload_ref : String
  pub created_at : String

-- HandoffPayloadError.audit_context
pub record AuditContext : Type 0 where
  pub handoff_id : String
  pub from_agent_id : String
  pub to_agent_id : String
  pub payload_ref : String

unfoldable pub audit_context : AgentHandoff → AuditContext
audit_context h = record {
  handoff_id = h.handoff_id;
  from_agent_id = h.from_agent_id;
  to_agent_id = h.to_agent_id;
  payload_ref = h.payload_ref;
}

-- HandoffValidationError by its message, HandoffPayloadError and HandoffIntegrityError
pub data HandoffError : Type 0 where
  wrong_source_schema wrong_target_schema foreign_reference : HandoffError
  missing_payload : String → HandoffError
  not_canonical hash_mismatch : AuditContext → HandoffError
  wrong_sender bad_envelope : HandoffError

-- HandoffValidator.validate
unfoldable pub validate_handoff :
    AgentHandoff → AgentIdentity → AgentIdentity → Result HandoffError (Unit {0})
validate_handoff handoff sender receiver = do
  raise_if (not (handoff.source_output_schema_id == sender.output_schema_id)) wrong_source_schema
  raise_if (not (handoff.target_input_schema_id == receiver.input_schema_id)) wrong_target_schema

-- What follows the prefix, where a text starts with it
unfoldable pub after_prefix : String → String → Option String
after_prefix String.[] text = some text
after_prefix (String.◌∷◌ p ps) String.[] = none
after_prefix (String.◌∷◌ p ps) (String.◌∷◌ c text) =
    let rest = after_prefix ps text in if code p == code c then rest else none

abbrev pub same_hash : Option String → String → Bool
same_hash none expected = false
same_hash (some hash) expected = hash == expected

abbrev pub is_text : Option Value → String → Bool
is_text (some (str s)) expected = s == expected
is_text _ expected = false

abbrev pub has_text : Option Value → Bool
has_text (some (str s)) = true
has_text _ = false

abbrev pub has_object : Option Value → Bool
has_object (some (obj fs)) = true
has_object _ = false

-- isinstance(payload, Mapping)
abbrev pub as_mapping : Value → Result HandoffError Fields
as_mapping (obj fs) = ok fs
as_mapping _ = err bad_envelope

abbrev pub or_raise {ℓ} : {A : Type ℓ} → HandoffError → Option A → Result HandoffError A
or_raise e none = err e
or_raise e (some a) = ok a

module _ (payload_hash : Value → Option String) where
  -- HandoffValidator.validate_payload, from `payload` on
  unfoldable pub validate_content :
      AgentHandoff → AgentIdentity → Value → Result HandoffError (Unit {0})
  validate_content handoff sender payload = do
    expected_hash ← or_raise (not_canonical (audit_context handoff)) (payload_hash payload)
    raise_if (not (same_hash handoff.output_hash expected_hash))
        (hash_mismatch (audit_context handoff))
    fields ← as_mapping payload
    raise_if (not (is_text (field_of fields "agent_id") sender.agent_id)) wrong_sender
    raise_if
        (not (has_text (field_of fields "role")) || not (has_object (field_of fields "output")))
        bad_envelope

  -- HandoffValidator.validate_payload
  unfoldable pub validate_payload :
      AgentHandoff → AgentIdentity → Dict String Value → Result HandoffError (Unit {0})
  validate_payload handoff sender payloads = do
    payload_key ←
        or_raise foreign_reference (after_prefix "agent-outputs.json#" handoff.payload_ref)
    payload ← or_raise (missing_payload payload_key) (get payloads payload_key)
    validate_content handoff sender payload
