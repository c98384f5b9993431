-- ===== src/TokenBudget/Models.antt =====
-- src/specflow/token_budget/models.py and estimator.py, and the contexts of
-- src/specflow/context_builder/models.py. The hash of a context is SHA-256 over JSON, an argument.
use Prim.Native.String.{String}
use specflow_agent.Prelude.{
  ℕ, suc, ◌+◌, ◌-◌, ◌/◌, Bool, Option, List, [], ◌∷◌, max, Result, ◌>>◌, raise_if, ◌==◌, string_eq,
  if◌then◌else◌, not,
}
use specflow_agent.Prelude.Int.{ℤ, pos, lt_int, is_neg, ◌-ℤ◌}
use specflow_agent.Prelude.Dict.{Dict}

pub record ContextSource : Type 0 where
  pub kind : String
  pub identifier : String
  pub hash : Option String

pub record BuiltContext : Type 0 where
  pub system_message : String
  pub user_message : String
  pub sources : List ContextSource
  pub estimated_tokens : ℕ
  pub prompt_name : String
  pub prompt_version : String
  pub prompt_hash : String
  pub project_context_hash : String
  pub context_hash : String

-- BuiltContext.__post_init__, where `calculate_hash` is an argument
unfoldable pub make_context : (BuiltContext → String) → BuiltContext → BuiltContext
make_context calculate_hash c =
    if c.context_hash == "" then record c { context_hash = calculate_hash c } else c

pub record BudgetPolicy : Type 0 where
  pub max_tokens : ℤ
  pub reserved_response_tokens : ℤ
  pub estimation_chars_per_token : ℤ
  pub section_priorities : Dict String ℤ

-- BudgetPolicy.input_budget
unfoldable pub input_budget : BudgetPolicy → ℤ
input_budget p = p.max_tokens -ℤ p.reserved_response_tokens

pub record RemovedSection : Type 0 where
  pub name : String
  pub estimated_tokens : ℕ
  pub priority : ℤ

-- BudgetResult, without the digest of its own fields
pub record BudgetResult : Type 0 where
  pub context : BuiltContext
  pub policy : BudgetPolicy
  pub original_estimated_tokens : ℕ
  pub final_estimated_tokens : ℕ
  pub was_trimmed : Bool
  pub removed_sections : List RemovedSection

-- TokenBudgetError, by its message
pub data BudgetError : Type 0 where
  max_not_positive negative_reserve reserve_too_large bad_chars_per_token : BudgetError
  required_content_too_large high_priority_too_large : BudgetError

-- TokenBudgetManager._validate_policy
unfoldable pub validate_policy : BudgetPolicy → Result BudgetError (Unit {0})
validate_policy p = do
  raise_if (not (lt_int (pos 0) p.max_tokens)) max_not_positive
  raise_if (is_neg p.reserved_response_tokens) negative_reserve
  raise_if (not (lt_int (pos 0) (input_budget p))) reserve_too_large
  raise_if (not (lt_int (pos 0) p.estimation_chars_per_token)) bad_chars_per_token

-- len(text)
unfoldable pub text_length : String → ℕ
text_length String.[] = 0
text_length (String.◌∷◌ c s) = suc (text_length s)

unfoldable pub total_length : List String → ℕ
unfolding text_length
total_length [] = 0
total_length (m ∷ ms) = text_length m + total_length ms

-- TokenEstimator.estimate, with a number of characters for each token that is positive
unfoldable pub estimate : ℕ → List String → ℕ
unfolding total_length
estimate chars_per_token messages =
    max 1 ((total_length messages + chars_per_token - 1) / chars_per_token)
