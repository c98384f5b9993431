-- ===== src/Fallback/Outcomes.antt =====
-- src/specflow/fallback/manager.py: what `FallbackManager.execute` returns.
use specflow_agent.Prelude.{
  ℕ, ◌≡◌, String, Bool, true, false, Option, none, some, Result, ok, err, string_eq, ◌⊎◌,
}
use specflow_agent.Prelude.Json.{Value, parsed, other_error}
use specflow_agent.Fallback.{
  CallError, FallbackResult, baseline_of, Codec, is_valid_json, search_object,
}

-- A successful result, with content that parses where JSON is expected.
pub record IsSuccess (codec : Codec) (expect_json : Bool) (r : FallbackResult) : Type 0 where
  pub status : r.status ≡ "success"
  pub unreviewed : r.requires_review ≡ false
  pub error_type : r.error_type ≡ none
  pub parses : (expect_json ≡ false) ⊎ (is_valid_json codec r.content ≡ ok true)

-- What a caller may rely on.
abbrev pub Honest : Codec → Bool → ℕ → FallbackResult → Type 0
Honest codec expect_json retries r =
    (r.retry_count ≡ retries)
    × (IsSuccess codec expect_json r ⊎ ((e : Option CallError) × (r ≡ baseline_of e retries)))

-- A call returns such a result, or raises an exception of `json.loads` other than a JSONDecodeError, on
-- the safe content or on the object in it.
abbrev pub Ends : Codec → Bool → String → ℕ → Result String FallbackResult → Type 0
Ends codec expect_json content retries out =
    ((r : FallbackResult) × (out ≡ ok r) × Honest codec expect_json retries r)
    ⊎ ((expect_json ≡ true)
        × ((text : String) × (e : String) × ((text ≡ content) ⊎ (search_object content ≡ some text))
            × (codec.loads text ≡ other_error e)
            × (out ≡ err e)))

module _ (codec : Codec) where
  -- What `json.dumps` writes of a value that was read, `json.loads` reads.
  abbrev pub DumpsLoad : Type 0
  DumpsLoad =
      (text : String) (v : Value)
      → codec.loads text ≡ parsed v
      → is_valid_json codec (codec.dumps v) ≡ ok true
