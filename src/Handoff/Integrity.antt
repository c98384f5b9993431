-- ===== src/Handoff/Integrity.antt =====
-- src/specflow/handoff/validator.py: what an accepted payload is.
use specflow_agent.Prelude.{
  ◌≡◌, refl, sym, ap, ◌∙◌, String, true, Option, none, some, ok, ◌>>=◌, ◌>>◌, >>=-eq-ok, raise_if,
  raise_if-eq-ok, not, ◌||◌, string_eq, arith,
}
use specflow_agent.Prelude.Dict.{Dict, get}
use specflow_agent.Prelude.Json.{Value, Fields, str, obj, field_of}
use specflow_agent.Agents.Models.{AgentIdentity}
use specflow_agent.Handoff.{
  AgentHandoff, HandoffError, foreign_reference, missing_payload, not_canonical, hash_mismatch,
  wrong_sender, bad_envelope, audit_context, after_prefix, same_hash, is_text, has_text, has_object,
  as_mapping, or_raise, validate_content, validate_payload,
}

or_raise-ok {ℓ} :
    {A : Type ℓ} (e : HandoffError) (o : Option A) {a : A} → or_raise e o ≡ ok a → o ≡ some a
or_raise-ok e none h = cc
or_raise-ok e (some a) h = cc

as_mapping-ok : (v : Value) (fs : Fields) → as_mapping v ≡ ok fs → v ≡ obj fs
as_mapping-ok (obj fs) gs h = cc
as_mapping-ok _ gs h = cc

is_text-str : (o : Option Value) (s : String) → is_text o s ≡ true → o ≡ some (str s)
is_text-str (some (str t)) s h = ap (λ u. some (str u)) ((string_eq.beq_iff t s).0 h)
is_text-str _ s h = cc

same_hash-some : (o : Option String) (h : String) → same_hash o h ≡ true → o ≡ some h
same_hash-some none h e = cc
same_hash-some (some k) h e = ap some ((string_eq.beq_iff k h).0 e)

-- The hash of a payload: SHA-256 of its canonical JSON.
abbrev pub hash_of : (String → String) → Option String → Option String
hash_of sha256 none = none
hash_of sha256 (some text) = some (sha256 text)

hash_of-some :
    (sha256 : String → String) (o : Option String) (h : String)
    → hash_of sha256 o ≡ some h
    → (text : String) × (o ≡ some text) × (sha256 text ≡ h)
hash_of-some sha256 none h e = cc
hash_of-some sha256 (some text) h e = (text, refl, cc)

-- What lies behind content that was accepted.
content-cases :
    (payload_hash : Value → Option String) (handoff : AgentHandoff) (sender : AgentIdentity)
    (payload : Value)
    → validate_content payload_hash handoff sender payload ≡ ok tt
    → (h : String) × (fs : Fields) × (payload_hash payload ≡ some h)
      × (handoff.output_hash ≡ some h)
      × (payload ≡ obj fs)
      × (field_of fs "agent_id" ≡ some (str sender.agent_id))
unfolding validate_content
content-cases payload_hash handoff sender payload h =
    let wrong = λ (fs : Fields). not (is_text (field_of fs "agent_id") sender.agent_id) in
    let rest = λ (fs : Fields).
      raise_if (wrong fs) wrong_sender
      >> raise_if (not (has_text (field_of fs "role")) || not (has_object (field_of fs "output")))
          bad_envelope in
    let unlike = λ (hash : String). not (same_hash handoff.output_hash hash) in
    let error = hash_mismatch (audit_context handoff) in
    let (hash, hashed, h1) =
      >>=-eq-ok (or_raise (not_canonical (audit_context handoff)) (payload_hash payload))
        (λ hash. raise_if (unlike hash) error >> (as_mapping payload >>= rest)) h in
    let (u, like, h2) =
      >>=-eq-ok (raise_if (unlike hash) error) (λ _. as_mapping payload >>= rest) h1 in
    let (fs, is_object, h3) = >>=-eq-ok (as_mapping payload) rest h2 in
    let (v, right, h4) =
      >>=-eq-ok (raise_if (wrong fs) wrong_sender)
        (λ _.
          raise_if (not (has_text (field_of fs "role")) || not (has_object (field_of fs "output")))
            bad_envelope)
        h3 in
    (
      hash,
      fs,
      or_raise-ok (not_canonical (audit_context handoff)) (payload_hash payload) hashed,
      same_hash-some handoff.output_hash hash
          (ground (arith, raise_if-eq-ok (unlike hash) error like)),
      as_mapping-ok payload fs is_object,
      is_text-str (field_of fs "agent_id") sender.agent_id
          (ground (arith, raise_if-eq-ok (wrong fs) wrong_sender right)),
    )

-- When the hash of a handoff was taken of an output, and no other text has the hash of its canonical
-- JSON, an accepted payload is the entry of the payloads that the reference names, is an object that
-- names the sender, and has the canonical JSON of that output: a change after the hash is refused.
pub accepted-Genuine :
    (canonical : Value → Option String) (sha256 : String → String) (handoff : AgentHandoff)
    (sender : AgentIdentity) (payloads : Dict String Value) (original : Value) (text : String)
    → canonical original ≡ some text
    → handoff.output_hash ≡ some (sha256 text)
    → ((other : String) → sha256 other ≡ sha256 text → other ≡ text)
    → validate_payload (λ v. hash_of sha256 (canonical v)) handoff sender payloads ≡ ok tt
    → (key : String) × (fs : Fields) × (after_prefix "agent-outputs.json#" handoff.payload_ref
        ≡ some key)
      × (get payloads key ≡ some (obj fs))
      × (canonical (obj fs) ≡ canonical original)
      × (field_of fs "agent_id" ≡ some (str sender.agent_id))
unfolding validate_payload
accepted-Genuine canonical sha256 handoff sender payloads original text written hashed unique h =
    let payload_hash : Value → Option String = λ v. hash_of sha256 (canonical v) in
    let check = λ (payload : Value). validate_content payload_hash handoff sender payload in
    let (key, referred, h1) =
      >>=-eq-ok
        (or_raise foreign_reference (after_prefix "agent-outputs.json#" handoff.payload_ref))
        (λ key. or_raise (missing_payload key) (get payloads key) >>= check) h in
    let (payload, found, h2) =
      >>=-eq-ok (or_raise (missing_payload key) (get payloads key)) check h1 in
    let (hash, fs, has_hash, same, is_object, named) =
      content-cases payload_hash handoff sender payload h2 in
    let (text', written', hashed') = hash_of-some sha256 (canonical payload) hash has_hash in
    let hashes : some (sha256 text) ≡ some hash = sym hashed ∙ same in
    let equal : sha256 text' ≡ sha256 text = cc in
    (
      key,
      fs,
      or_raise-ok foreign_reference (after_prefix "agent-outputs.json#" handoff.payload_ref)
          referred,
      or_raise-ok (missing_payload key) (get payloads key) found ∙ ap some is_object,
      ap canonical (sym is_object) ∙ written' ∙ ap some (unique text' equal) ∙ sym written,
      named,
    )
