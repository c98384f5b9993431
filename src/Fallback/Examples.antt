-- ===== src/Fallback/Examples.antt =====
-- Runs of src/specflow/fallback.
use specflow_agent.Prelude.{
  ℕ, zero, suc, ◌≡◌, refl, true, false, none, [], ◌∷◌, ok, err, ◌==◌, string_eq, if◌then◌else◌,
}
use specflow_agent.Prelude.Json.{null, parsed, decode_error, other_error}
use specflow_agent.Prelude.Text.{lower_code, has_part}
use specflow_agent.Policy.Errors.{provider_rate_limited, is_retryable, error_category}
use specflow_agent.Executor.{strip_control}
use specflow_agent.Fallback.{
  CallError, Reply, returned, raised, error_to_code, text_to_code, RetryStrategy, run, run_loop,
  json_repair, make_result, success, success_of, Codec, execute, finish, is_valid_json, repair,
  search_object, up_to_brace, sanitize_fallback_content,
}
use specflow_agent.Fallback.Retries.{Attempted, run-Attempted}

abbrev busy : CallError
busy = record { type_name = "HTTPError"; message = "503 Server busy"; is_timeout = false }

-- The first call fails, later ones return an object in prose.
abbrev operation : ℕ → Reply
operation zero = raised busy
operation (suc n) = returned "Here: {} done"

abbrev twice : RetryStrategy
twice = record { max_retries = 2; base_backoff = 100 }

abbrev codec : Codec
codec = record {
  loads = λ text. if text == "{}" then parsed null else decode_error;
  dumps = λ v. "{}";
  redact = λ text. text;
}

run_once :
    run twice operation
    ≡ record { content = "Here: {} done"; retries = 1; error = none; sleeps = 100 ∷ [] }
unfolding run run_loop error_to_code text_to_code lower_code has_part is_retryable error_category
run_once = refl

execute_repairs : execute codec twice operation true ≡ ok (success_of "{}" json_repair 1)
unfolding execute run run_loop error_to_code text_to_code lower_code has_part is_retryable
    error_category finish is_valid_json repair search_object up_to_brace sanitize_fallback_content
    success make_result strip_control
execute_repairs = refl

-- A failure that has nothing to do with a provider's limit, but whose text has the letters "rate".
generate_is_retried :
    error_to_code
      (record { type_name = "ValueError"; message = "Failed to generate"; is_timeout = false })
    ≡ provider_rate_limited
unfolding error_to_code text_to_code lower_code has_part
generate_is_retried = refl

run-Attempted_example : (n : ℕ) × Attempted twice operation (run twice operation) n
run-Attempted_example = run-Attempted twice operation

-- The int of Python refuses texts of more than 4300 digits.
abbrev strict : Codec
strict = record codec { loads = λ text. other_error "ValueError" }

execute_raises : execute strict twice operation true ≡ err "ValueError"
unfolding execute run run_loop error_to_code text_to_code lower_code has_part is_retryable
    error_category finish is_valid_json sanitize_fallback_content strip_control
execute_raises = refl
