-- ===== src/Fallback.antt =====
-- src/specflow/fallback/: retries of an operation, the repair of JSON, and the baseline. The operation
-- answers its n-th call as it likes. `json` and `re.sub` are arguments: `loads`
-- and `dumps`, and `redact`. The sleeps are a list of milliseconds, exact numbers: that the float product
-- raises OverflowError from the 1025th retry on is not modelled. Confidence counts tenths. An exception
-- that leaves `execute` is its name.
pub mod Retries
pub mod Outcomes
mod Examples
use Prim.Native.Char.{code}
use specflow_agent.Prelude.{
  ℕ, zero, suc, ◌+◌, ◌-◌, ◌*◌, ◌^◌, String, Bool, true, false, Option, none, some, List, [], ◌∷◌,
  ◌++◌, map, min, ◌==◌, nat_eq, string_eq, contains, Result, ok, err, ◌>>=◌, ◌>>◌, raise_if, leb,
  any, not, ◌||◌, if◌then◌else◌, map_some,
}
use specflow_agent.Prelude.Int.{ℤ, pos, negsuc, is_neg, lt_int}
use specflow_agent.Prelude.Text.{codes, lower_code, has_part}
use specflow_agent.Prelude.Json.{Value, Parsed, parsed, decode_error, other_error}
use specflow_agent.Policy.Errors.{
  ErrorCode, provider_timeout, provider_rate_limited, provider_connection_error,
  provider_server_error, provider_auth_failure, security_path_traversal, internal_unexpected,
  is_retryable,
}
use specflow_agent.Executor.{strip_control}

-- An exception: its type's name, its text, and whether it is a TimeoutError
pub record CallError : Type 0 where
  pub type_name : String
  pub message : String
  pub is_timeout : Bool

pub data Reply : Type 0 where
  returned : String → Reply
  raised : CallError → Reply

abbrev pub mentions : List ℕ → String → Bool
mentions text part = has_part (codes part) text

-- the tests of _error_to_code on the lower-case text
unfoldable pub text_to_code : List ℕ → ErrorCode
text_to_code text =
    if mentions text "429" || mentions text "rate"
    then provider_rate_limited
    else if mentions text "timeout" || mentions text "timed out"
    then provider_timeout
    else if mentions text "connection" || mentions text "network"
    then provider_connection_error
    else if any (mentions text) ("500" ∷ "502" ∷ "503" ∷ "server" ∷ [])
    then provider_server_error
    else if mentions text "401"
        || mentions text "403"
        || mentions text "auth"
        || mentions text "unauthorized"
    then provider_auth_failure
    else if any (mentions text) ("security" ∷ "traversal" ∷ "sensitive" ∷ "redaction" ∷ [])
    then security_path_traversal
    else internal_unexpected

-- _error_to_code
unfoldable pub error_to_code : CallError → ErrorCode
error_to_code error =
    if error.is_timeout
    then provider_timeout
    else text_to_code (map lower_code (codes error.message))

-- RetryStrategy, with its backoff in milliseconds
pub record RetryStrategy : Type 0 where
  pub max_retries : ℕ
  pub base_backoff : ℕ

-- RetryStrategy.__post_init__
unfoldable pub make_retry_strategy : ℤ → ℤ → Result String RetryStrategy
make_retry_strategy (negsuc n) backoff = err "max_retries must not be negative"
make_retry_strategy (pos n) (negsuc b) = err "base_backoff_seconds must not be negative"
make_retry_strategy (pos n) (pos b) = ok (record { max_retries = n; base_backoff = b })

pub record RetryRun : Type 0 where
  pub content : String
  pub retries : ℕ
  pub error : Option CallError
  pub sleeps : List ℕ

-- The sleep before the given attempt, if any
abbrev pub backoff : RetryStrategy → ℕ → List ℕ
backoff s attempts =
    if s.base_backoff == 0 then [] else min (s.base_backoff * 2 ^ (attempts - 1)) 5000 ∷ []

abbrev pub gave_up : ℕ → Option CallError → List ℕ → RetryRun
gave_up retries error sleeps = record {
  content = "";
  retries = retries;
  error = error;
  sleeps = sleeps;
}

abbrev pub is_final : RetryStrategy → ℕ → CallError → Bool
is_final s attempts error = leb s.max_retries attempts || not (is_retryable (error_to_code error))

-- The loop, with one round for each attempt that `attempts <= self.max_retries` allows: when the
-- rounds are over the test fails, and the loop ends the same way.
unfoldable pub run_loop : RetryStrategy → (ℕ → Reply) → ℕ → ℕ → Option CallError → List ℕ → RetryRun
run_loop s operation zero attempts last_error sleeps = gave_up s.max_retries last_error sleeps
run_loop s operation (suc rounds) attempts last_error sleeps = elim (operation attempts) [
  | returned content ↦ record {
    content = content;
    retries = attempts;
    error = none;
    sleeps = sleeps;
  }
  | raised error ↦ elim (is_final s attempts error) [
    | true ↦ gave_up attempts (some error) sleeps
    | false ↦
        run_loop s operation rounds (attempts + 1) (some error) (sleeps ++ backoff s (attempts + 1))
  ]
]

-- RetryStrategy.run
unfoldable pub run : RetryStrategy → (ℕ → Reply) → RetryRun
run s operation = run_loop s operation (s.max_retries + 1) 0 none []

-- FallbackLevel
pub data FallbackLevel : Type 0 where
  no_fallback retry json_repair rule_baseline : FallbackLevel

pub record FallbackResult : Type 0 where
  pub status : String
  pub fallback_level : FallbackLevel
  pub content : String
  pub confidence : ℤ
  pub requires_review : Bool
  pub error_type : Option String
  pub retry_count : ℕ

-- FallbackResult.__post_init__, before the record
unfoldable pub make_result : FallbackResult → Result String FallbackResult
make_result r = do
  raise_if (not (r.status == "success" || r.status == "degraded"))
      "FallbackResult.status must be success or degraded"
  raise_if (is_neg r.confidence || lt_int (pos 10) r.confidence)
      "FallbackResult.confidence must be between 0 and 1"
  ok r

abbrev pub baseline_of : Option CallError → ℕ → FallbackResult
baseline_of error retry_count = record {
  status = "degraded";
  fallback_level = rule_baseline;
  content = "Fallback baseline: runtime failed; manual review is required.";
  confidence = pos 0;
  requires_review = true;
  error_type = map_some (λ (e : CallError). e.type_name) error;
  retry_count = retry_count;
}

-- RuleBaselineStrategy.build
unfoldable pub build : Option CallError → ℕ → Result String FallbackResult
build error retry_count = make_result (baseline_of error retry_count)

abbrev pub confidence_of : FallbackLevel → ℤ
confidence_of no_fallback = pos 10
confidence_of retry = pos 10
confidence_of _ = pos 8

abbrev pub success_of : String → FallbackLevel → ℕ → FallbackResult
success_of content level retry_count = record {
  status = "success";
  fallback_level = level;
  content = content;
  confidence = confidence_of level;
  requires_review = false;
  error_type = none;
  retry_count = retry_count;
}

-- FallbackManager._success
unfoldable pub success : String → FallbackLevel → ℕ → Result String FallbackResult
success content level retry_count = make_result (success_of content level retry_count)

-- The text up to its last closing brace.
unfoldable pub up_to_brace : String → Option String
up_to_brace String.[] = none
up_to_brace (String.◌∷◌ c s) = elim (up_to_brace s) [
  | some t ↦ some (String.◌∷◌ c t)
  | none ↦ if code c == b'}' then some (String.◌∷◌ c String.[]) else none
]

-- _JSON_OBJECT_RE.search: from the first opening brace to the last closing one
unfoldable pub search_object : String → Option String
search_object String.[] = none
search_object (String.◌∷◌ c s) =
    if code c == b'{' then up_to_brace (String.◌∷◌ c s) else search_object s

pub record Codec : Type 0 where
  pub loads : String → Parsed
  pub dumps : Value → String
  pub redact : String → String

module _ (codec : Codec) where
  abbrev pub dump_parsed : Parsed → Result String (Option String)
  dump_parsed (parsed v) = ok (some (codec.dumps v))
  dump_parsed decode_error = ok none
  dump_parsed (other_error e) = err e

  abbrev pub repair_candidate : Option String → Result String (Option String)
  repair_candidate none = ok none
  repair_candidate (some candidate) = dump_parsed (codec.loads candidate)

  -- JsonRepairStrategy.repair
  unfoldable pub repair : String → Result String (Option String)
  repair raw_response = repair_candidate (search_object raw_response)

  -- sanitize_fallback_content
  unfoldable pub sanitize_fallback_content : String → String
  sanitize_fallback_content content = strip_control (codec.redact content)

  abbrev pub parses : Parsed → Result String Bool
  parses (parsed v) = ok true
  parses decode_error = ok false
  parses (other_error e) = err e

  -- _is_valid_json
  unfoldable pub is_valid_json : String → Result String Bool
  is_valid_json content = parses (codec.loads content)

  abbrev pub level_of : ℕ → FallbackLevel
  level_of zero = no_fallback
  level_of (suc n) = retry

  abbrev pub or_baseline : Option String → ℕ → Result String FallbackResult
  or_baseline none retry_count = build none retry_count
  or_baseline (some repaired) retry_count = success repaired json_repair retry_count

  abbrev pub or_repair : Bool → String → ℕ → Result String FallbackResult
  or_repair true content retry_count = success content (level_of retry_count) retry_count
  or_repair false content retry_count = do
    repaired ← repair content
    or_baseline repaired retry_count

  abbrev pub finish_json : String → ℕ → Result String FallbackResult
  finish_json content retry_count = do
    valid ← is_valid_json content
    or_repair valid content retry_count

  unfoldable pub finish : Bool → String → ℕ → Result String FallbackResult
  finish expect_json content retry_count =
      if expect_json
      then finish_json content retry_count
      else success content (level_of retry_count) retry_count

  abbrev pub conclude : Bool → Option CallError → RetryRun → Result String FallbackResult
  conclude expect_json (some error) r = build (some error) r.retries
  conclude expect_json none r = finish expect_json (sanitize_fallback_content r.content) r.retries

  -- FallbackManager.execute
  unfoldable pub execute : RetryStrategy → (ℕ → Reply) → Bool → Result String FallbackResult
  execute s operation expect_json = let r = run s operation in conclude expect_json r.error r
