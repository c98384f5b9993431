-- ===== src/Workers/Models.antt =====
-- src/specflow/workers/models.py. A constructor is a function into the record or the first error of its
-- checks; the checks of types hold by type.
use specflow_agent.Prelude.{
  ℕ, String, Bool, true, false, Option, none, some, List, [], ◌∷◌, map, Result, ok, ◌>>◌, raise_if,
  any, not, ◌&&◌, ◌||◌, HasEq, ◌==◌, nat_eq, string_eq, ◌≡◌, ◌↔◌, arith, map_some,
}
use specflow_agent.Prelude.Dict.{Dict, keys}
use specflow_agent.Prelude.Text.{is_blank, strip, codes, lower_code}
use specflow_agent.Executor.{strip_control}

-- WorkerRole
pub data WorkerRole : Type 0 where
  analyze generate review : WorkerRole

-- WorkerRole.value
abbrev pub role_value : WorkerRole → String
role_value analyze = "analyze"
role_value generate = "generate"
role_value review = "review"

abbrev pub role_number : WorkerRole → ℕ
role_number analyze = 0
role_number generate = 1
role_number review = 2

pub role_number_iff : (a b : WorkerRole) → ((role_number a == role_number b) ≡ true) ↔ (a ≡ b)
role_number_iff a b = ground arith

instance abbrev pub worker_role_eq : HasEq WorkerRole
worker_role_eq = record { beq = λ a b. role_number a == role_number b; beq_iff = role_number_iff }

-- WorkerValidationError, with the field that its message names
pub data WorkerError : Type 0 where
  invalid_field : String → WorkerError
  error_in_success no_error_message : WorkerError

pub record WorkerMetadata : Type 0 where
  pub name : String
  pub role : WorkerRole
  pub version : String
  pub description : String

-- version.strip().lower() in {"latest", "dev"}, on code points
abbrev pub same_codes : List ℕ → List ℕ → Bool
same_codes [] [] = true
same_codes (a ∷ as') (b ∷ bs) = a == b && same_codes as' bs
same_codes _ _ = false

unfoldable pub is_moving : String → Bool
is_moving version =
    let text = map lower_code (codes (strip version)) in
    same_codes text (codes "latest") || same_codes text (codes "dev")

-- WorkerMetadata.__post_init__
unfoldable pub check_worker : WorkerMetadata → Result WorkerError (Unit {0})
check_worker m = do
  raise_if (is_blank m.name) (invalid_field "name")
  raise_if (is_blank m.description) (invalid_field "description")
  raise_if (is_blank m.version || is_moving m.version) (invalid_field "version")

pub record WorkerContext : Type 0 where
  pub run_id : String
  pub requirement : String
  pub project_context : String
  pub prior_outputs : List (String × String)
  pub metadata : Dict String String

-- WorkerContext.__post_init__
unfoldable pub check_context : WorkerContext → Result WorkerError (Unit {0})
check_context c = do
  raise_if (is_blank c.run_id) (invalid_field "run_id")
  raise_if (is_blank c.requirement) (invalid_field "requirement")
  raise_if (any (λ p. is_blank p.0) c.prior_outputs) (invalid_field "prior_outputs")
  raise_if (any is_blank (keys c.metadata)) (invalid_field "metadata")

pub record WorkerResult : Type 0 where
  pub worker_name : String
  pub worker_role : WorkerRole
  pub success : Bool
  pub output : List (String × String)
  pub metadata : Dict String String
  pub error_type : Option String
  pub error_message : Option String
  pub requires_review : Bool

-- bool(text), where `None` is false
abbrev pub is_given : Option String → Bool
is_given none = false
is_given (some text) = not (text == "")

-- sanitize_worker_text
unfoldable pub sanitize_worker_text : (String → String) → String → String
sanitize_worker_text redact text = strip_control (redact text)

-- WorkerResult.__post_init__
unfoldable pub make_worker_result :
    (String → String) → WorkerResult → Result WorkerError WorkerResult
make_worker_result redact r = do
  raise_if (is_blank r.worker_name) (invalid_field "worker_name")
  raise_if (any (λ p. is_blank p.0) r.output) (invalid_field "output")
  raise_if (any is_blank (keys r.metadata)) (invalid_field "metadata")
  raise_if (r.success && (is_given r.error_type || is_given r.error_message || r.requires_review))
      error_in_success
  raise_if (not r.success && not (is_given r.error_message)) no_error_message
  ok (record r { error_message = map_some (sanitize_worker_text redact) r.error_message })
