-- ===== src/TokenBudget/Manager.antt =====
-- src/specflow/token_budget/manager.py: `TokenBudgetManager.apply`.
pub mod Trimming
use specflow_agent.Prelude.{
  ℕ, zero, suc, String, Bool, true, false, Option, none, some, List, [], ◌∷◌, ◌++◌, map, keep, leb,
  not, ◌&&◌, ◌||◌, ◌==◌, string_eq, Result, ok, err, ◌>>=◌, ◌>>◌, raise_if, if◌then◌else◌,
}
use specflow_agent.Prelude.Int.{ℤ, pos, lt_int, pos_part}
use specflow_agent.Prelude.Dict.{get}
use specflow_agent.Prelude.Sort.{sort_by}
use specflow_agent.Prelude.Text.{◌+++◌}
use specflow_agent.TokenBudget.Models.{
  ContextSource, BuiltContext, make_context, BudgetPolicy, input_budget, RemovedSection,
  BudgetResult, BudgetError, validate_policy, required_content_too_large, high_priority_too_large,
  estimate,
}
use specflow_agent.TokenBudget.Sections.{join_lines, split_user_message, join_sections}

abbrev pub or_empty : Option String → String
or_empty none = ""
or_empty (some text) = text

abbrev pub Section : Type 0
Section = String × String

-- selected[index] = ("", "")
unfoldable pub blank_out : ℕ → List Section → List Section
blank_out i [] = []
blank_out zero (s ∷ sections) = ("", "") ∷ sections
blank_out (suc i) (s ∷ sections) = s ∷ blank_out i sections

-- list(enumerate(sections)), from an index on
unfoldable pub enumerate_from : ℕ → List Section → List (ℕ × Section)
enumerate_from i [] = []
enumerate_from i (s ∷ sections) = (i, s) ∷ enumerate_from (suc i) sections

abbrev pub or_zero : Option ℤ → ℤ
or_zero none = pos 0
or_zero (some n) = n

module _ (calculate_hash : BuiltContext → String) (policy : BudgetPolicy) where
  -- _priority
  unfoldable pub priority : String → ℤ
  priority section_name = or_zero (get policy.section_priorities section_name)

  abbrev pub removed_before : ℕ × Section → ℕ × Section → Bool
  removed_before (i, (name, text)) (j, (name', text')) =
      if lt_int (priority name) (priority name')
      then true
      else if lt_int (priority name') (priority name)
      then false
      else leb i j

  -- _removal_order
  unfoldable pub removal_order : List Section → List (ℕ × Section)
  unfolding enumerate_from
  removal_order sections = sort_by removed_before (enumerate_from 0 sections)

  abbrev pub chars_per_token : ℕ
  chars_per_token = pos_part policy.estimation_chars_per_token

  abbrev pub source_text : List ContextSource → String
  source_text sources =
      join_lines (map (λ s. s.kind +++ ":" +++ s.identifier +++ ":" +++ or_empty s.hash) sources)

  -- _estimate_context
  unfoldable pub estimate_context : BuiltContext → ℕ
  estimate_context c =
      let metadata = join_lines (
        c.prompt_name
        ∷ c.prompt_version
        ∷ c.prompt_hash
        ∷ c.project_context_hash
        ∷ c.context_hash
        ∷ source_text c.sources
        ∷ []) in
      estimate chars_per_token (c.system_message ∷ c.user_message ∷ metadata ∷ [])

  abbrev pub with_message : BuiltContext → String → BuiltContext
  with_message c message =
      make_context calculate_hash (record c { user_message = message; context_hash = "" })

  -- _estimate_with_sections
  unfoldable pub estimate_with_sections : BuiltContext → List Section → ℕ
  unfolding estimate_context
  estimate_with_sections c sections = estimate_context (with_message c (join_sections sections))

  -- a <= input_budget
  abbrev pub fits : ℕ → Bool
  fits tokens = not (lt_int (input_budget policy) (pos tokens))

  abbrev pub report : ℕ × Section → RemovedSection
  report (i, (name, text)) = record {
    name = name;
    estimated_tokens = estimate chars_per_token (text ∷ []);
    priority = priority name;
  }

  -- The loop of _trim_sections
  unfoldable pub trim_loop :
      BuiltContext
      → List (ℕ × Section)
      → List Section
      → List RemovedSection
      → List Section × List RemovedSection
  trim_loop c [] selected removed = (selected, removed)
  trim_loop c (next ∷ order) selected removed =
      let rest = trim_loop c order (blank_out next.0 selected) (removed ++ report next ∷ []) in
      if fits (estimate_with_sections c selected) then (selected, removed) else rest

  -- _trim_sections
  unfoldable pub trim_sections : BuiltContext → List Section → List Section × List RemovedSection
  unfolding trim_loop
  trim_sections c sections =
      let (selected, removed) = trim_loop c (removal_order sections) sections [] in
      (keep (λ s. not (s.0 == "") && not (s.1 == "")) selected, removed)

  abbrev pub untrimmed : BuiltContext → ℕ → BudgetResult
  untrimmed c tokens = record {
    context = c;
    policy = policy;
    original_estimated_tokens = tokens;
    final_estimated_tokens = tokens;
    was_trimmed = false;
    removed_sections = [];
  }

  -- What `apply` does after the trimming
  unfoldable pub check_trimmed :
      BuiltContext → ℕ → List Section × List RemovedSection → Result BudgetError BudgetResult
  check_trimmed c tokens (selected, removed) =
      let trimmed = with_message c (join_sections selected) in
      if fits (estimate_context trimmed)
      then ok (record {
        context = trimmed;
        policy = policy;
        original_estimated_tokens = tokens;
        final_estimated_tokens = estimate_context trimmed;
        was_trimmed = true;
        removed_sections = removed;
      })
      else err high_priority_too_large

  -- `apply`, behind the first estimate
  unfoldable pub apply : BuiltContext → Result BudgetError BudgetResult
  apply c =
      if fits (estimate_context c)
      then ok (untrimmed c (estimate_context c))
      else if not
          (fits (estimate_context (make_context calculate_hash (record c { user_message = "" }))))
      then err required_content_too_large
      else check_trimmed c (estimate_context c)
          (trim_sections c (split_user_message c.user_message))
