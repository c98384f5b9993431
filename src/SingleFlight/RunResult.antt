-- ===== src/SingleFlight/RunResult.antt =====
-- src/specflow/single_flight.py: `safe_code` and `RunResult`, with the `RunOutcome` of
-- policy/models.py that it holds.
use specflow_agent.Prelude.{
  ℕ, if_lem, subst, suc, zero, ◌≡◌, refl, sym, ap, ◌∙◌, String, string_eq, Bool, true, false,
  Option, none, some, ◌==◌, nat_eq, Result, ok, ◌>>◌, raise_if, >>=-eq-ok, raise_if-eq-ok, leb,
  ◌&&◌, ◌||◌, if◌then◌else◌, Bool-cases, inl, inr, arith, not,
}
use specflow_agent.Prelude.Dict.{Dict}
use Prim.Native.Char.{code}

abbrev pub is_upper : ℕ → Bool
is_upper c = leb 65 c && leb c 90

abbrev pub is_code_char : ℕ → Bool
is_code_char c = is_upper c || (leb 48 c && leb c 57) || c == 95

-- [A-Z0-9_]{0,n}, up to the end
unfoldable pub matches_rest : ℕ → String → Bool
matches_rest n String.[] = true
matches_rest zero (String.◌∷◌ c s) = false
matches_rest (suc n) (String.◌∷◌ c s) = let rest = matches_rest n s in is_code_char (code c) && rest

-- _SAFE_CODE.fullmatch
unfoldable pub is_safe_code : String → Bool
is_safe_code String.[] = false
is_safe_code (String.◌∷◌ c s) = is_upper (code c) && matches_rest 63 s

-- safe_code; `none` is a code that is no text
unfoldable pub safe_code : Option String → String → String
safe_code none fallback = fallback
safe_code (some code) fallback = if is_safe_code code then code else fallback

-- RunResult with its RunOutcome. The outcome's remaining fields keep their defaults.
pub record RunResult : Type 0 where
  pub exit_code : ℕ
  pub status : String
  pub error : String
  pub degraded : Bool
  pub artifact_directory : Option String
  pub metadata : Dict String String

-- The ValueError of RunOutcome, and the codes of the SpecFlowErrors of this file
pub data FlightError : Type 0 where
  security_requires_code ownership_error invalid_wait : FlightError

-- The default status and error of an exit code.
unfoldable pub default_outcome : ℕ → String × String
default_outcome exit_code =
    if exit_code == 0
    then ("completed", "")
    else if exit_code == 4
    then ("completed_degraded", "")
    else if exit_code == 2
    then ("failed_security", "REPOSITORY_UNAVAILABLE")
    else ("failed_runtime", "RUNNER_FAILED")

-- `a or b`, for a text that may be missing
abbrev pub or_else : Option String → String → String
or_else none b = b
or_else (some a) b = if a == "" then b else a

abbrev pub error_of : Option String → String → String
error_of none default_error = default_error
error_of (some error_code) default_error =
    if error_code == "" then default_error else safe_code (some error_code) "RUNNER_FAILED"

-- RunResult.__new__
unfoldable pub make_result :
    ℕ
    → Option String
    → Option String
    → Option String
    → Dict String String
    → Result FlightError RunResult
make_result exit_code error_code artifact_directory result_status single_flight = do
  let status = or_else result_status (default_outcome exit_code).0
  let error = error_of error_code (default_outcome exit_code).1
  raise_if (status == "failed_security" && error == "") security_requires_code
  ok (record {
    exit_code = exit_code;
    status = status;
    error = error;
    degraded = exit_code == 4;
    artifact_directory = artifact_directory;
    metadata = single_flight;
  })

-- RunResult.error_code
unfoldable pub error_code_of : RunResult → Option String
error_code_of r = if r.error == "" then none else some r.error

-- RunResult.with_audit
unfoldable pub with_audit : RunResult → Dict String String → Result FlightError RunResult
with_audit r metadata =
    make_result r.exit_code (error_code_of r) r.artifact_directory (some r.status) metadata

-- A result that the constructor can give.
pub record IsResult (r : RunResult) : Type 0 where
  pub status_there : (r.status == "") ≡ false
  pub code_safe : (r.error == "" || is_safe_code r.error) ≡ true
  pub empty_default : (r.error == "" && not ((default_outcome r.exit_code).1 == "")) ≡ false
  pub security_code : (r.status == "failed_security" && r.error == "") ≡ false
  pub degraded_by_code : r.degraded ≡ (r.exit_code == 4)

safe_code-safe :
    (error_code fallback : String)
    → is_safe_code fallback ≡ true
    → is_safe_code (safe_code (some error_code) fallback) ≡ true
unfolding safe_code
safe_code-safe error_code fallback h =
    if_lem (λ s. is_safe_code s ≡ true) (is_safe_code error_code) (λ e. e) (λ e. h)

runner_failed_safe : is_safe_code "RUNNER_FAILED" ≡ true
unfolding is_safe_code matches_rest
runner_failed_safe = refl

unavailable_safe : is_safe_code "REPOSITORY_UNAVAILABLE" ≡ true
unfolding is_safe_code matches_rest
unavailable_safe = refl

default_outcome_lem :
    (P : String × String → Type 0) (n : ℕ)
    → P ("completed", "")
    → P ("completed_degraded", "")
    → P ("failed_security", "REPOSITORY_UNAVAILABLE")
    → P ("failed_runtime", "RUNNER_FAILED")
    → P (default_outcome n)
unfolding default_outcome
default_outcome_lem P n h0 h4 h2 h =
    if_lem P (n == 0) (λ e. h0)
      (λ e. if_lem P (n == 4) (λ e. h4) (λ e. if_lem P (n == 2) (λ e. h2) (λ e. h)))

default-status : (n : ℕ) → ((default_outcome n).0 == "") ≡ false
default-status n = default_outcome_lem (λ o. (o.0 == "") ≡ false) n refl refl refl refl

default-error : (n : ℕ) → ((default_outcome n).1 == "" || is_safe_code (default_outcome n).1) ≡ true
default-error n =
    default_outcome_lem (λ o. (o.1 == "" || is_safe_code o.1) ≡ true) n refl refl
      (ground (arith, unavailable_safe)) (ground (arith, runner_failed_safe))

or_else-there : (o : Option String) (b : String) → (b == "") ≡ false → (or_else o b == "") ≡ false
or_else-there none b h = h
or_else-there (some a) b h = if_lem (λ (s : String). (s == "") ≡ false) (a == "") (λ e. h) (λ e. e)

empty-unsafe : is_safe_code "" ≡ false
unfolding is_safe_code
empty-unsafe = refl

safe-there : (s : String) → is_safe_code s ≡ true → (s == "") ≡ false
safe-there s h = elim (Bool-cases (s == "")) [
  | inl e ↦
      let moved = ap is_safe_code ((string_eq.beq_iff s "").0 e) in
      ground (arith, moved, empty-unsafe, h)
  | inr e ↦ e
]

-- The error of a result is empty or a safe code, and empty only when the default is.
record Erring (error default_error : String) : Type 0 where
  safe : (error == "" || is_safe_code error) ≡ true
  defaulted : (error == "" && not (default_error == "")) ≡ false

error_of-Erring :
    (o : Option String) (d : String) → (d == "" || is_safe_code d) ≡ true → Erring (error_of o d) d
error_of-Erring none d h = record { safe = h; defaulted = ground arith }
error_of-Erring (some a) d h =
    if_lem (λ s. Erring s d) (a == "") (λ e. record { safe = h; defaulted = ground arith })
      (λ e.
        let safe = safe_code-safe a "RUNNER_FAILED" runner_failed_safe in
        record {
          safe = ground (arith, safe);
          defaulted = ground (arith, safe-there (safe_code (some a) "RUNNER_FAILED") safe);
        })

make_result-IsResult :
    (exit_code : ℕ) (error_code directory result_status : Option String)
    (metadata : Dict String String) (r : RunResult)
    → make_result exit_code error_code directory result_status metadata ≡ ok r
    → IsResult r
unfolding make_result
make_result-IsResult exit_code error_code directory result_status metadata r h =
    let status = or_else result_status (default_outcome exit_code).0 in
    let error = error_of error_code (default_outcome exit_code).1 in
    let made : RunResult = record {
      exit_code = exit_code;
      status = status;
      error = error;
      degraded = exit_code == 4;
      artifact_directory = directory;
      metadata = metadata;
    } in
    let (u, passed, rest) =
      >>=-eq-ok (raise_if (status == "failed_security" && error == "") security_requires_code)
        (λ _. ok made) h in
    let erring =
      error_of-Erring error_code (default_outcome exit_code).1 (default-error exit_code) in
    let same : made ≡ r = cc in
    subst IsResult same (record {
      status_there =
          or_else-there result_status (default_outcome exit_code).0 (default-status exit_code);
      code_safe = erring.safe;
      empty_default = erring.defaulted;
      security_code =
          raise_if-eq-ok (status == "failed_security" && error == "") security_requires_code passed;
      degraded_by_code = refl;
    })

error-kept :
    (r : RunResult)
    → IsResult r
    → error_of (error_code_of r) (default_outcome r.exit_code).1 ≡ r.error
unfolding error_code_of safe_code
error-kept r i = elim (Bool-cases (r.error == "")) [
  | inl e ↦
      let no_default : ((default_outcome r.exit_code).1 == "") ≡ true =
        ground (arith, i.empty_default, e) in
      rw e (
        (string_eq.beq_iff (default_outcome r.exit_code).1 "").0 no_default
        ∙ sym ((string_eq.beq_iff r.error "").0 e))
  | inr e ↦
      let safe : is_safe_code r.error ≡ true = ground (arith, i.code_safe, e) in
      rw e (rw e (rw safe refl))
]

with_audit-IsResult :
    (r : RunResult) (m : Dict String String)
    → IsResult r
    → with_audit r m ≡ ok (record r { metadata = m })
unfolding with_audit make_result
with_audit-IsResult r m i = rw (i.status_there) (
    rw (error-kept r i) (
      rw (i.security_code)
        (ap (λ b. ok (record r { metadata = m; degraded = b })) (sym i.degraded_by_code))))

-- An audit of a result that the constructor gave succeeds, and changes its metadata only.
pub with_audit-make_result :
    (exit_code : ℕ) (error_code directory result_status : Option String)
    (metadata m : Dict String String) (r : RunResult)
    → make_result exit_code error_code directory result_status metadata ≡ ok r
    → with_audit r m ≡ ok (record r { metadata = m })
with_audit-make_result exit_code error_code directory result_status metadata m r h =
    with_audit-IsResult r m
      (make_result-IsResult exit_code error_code directory result_status metadata r h)
