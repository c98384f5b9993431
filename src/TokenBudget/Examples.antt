-- ===== src/TokenBudget/Examples.antt =====
-- Token budgets of src/specflow/token_budget.
use specflow_agent.Prelude.{◌≡◌, refl, String, true, [], ◌∷◌, ok, string_eq}
use specflow_agent.Prelude.Int.{pos}
use specflow_agent.Prelude.Dict.{get}
use specflow_agent.Prelude.Sort.{sort_by, insert_by}
use specflow_agent.Prelude.Text.{strip, starts_with, is_space, lstrip, reverse_onto}
use specflow_agent.TokenBudget.Models.{
  BuiltContext, make_context, BudgetPolicy, BudgetResult, input_budget, estimate, text_length,
  total_length,
}
use specflow_agent.TokenBudget.Sections.{
  split_user_message, split_lines, group_lines, detect_section, join_sections, join_lines,
  reverse_lines, find_section, split_from,
}
use specflow_agent.TokenBudget.Manager.{
  apply, trim_sections, removal_order, estimate_context, check_trimmed, blank_out, enumerate_from,
  estimate_with_sections, priority, trim_loop,
}
use specflow_agent.TokenBudget.Manager.Trimming.{apply-IsBudgeted, IsBudgeted}

abbrev policy : BudgetPolicy
policy = record {
  max_tokens = pos 12;
  reserved_response_tokens = pos 2;
  estimation_chars_per_token = pos 4;
  section_priorities = ("requirement", pos 90) ∷ ("unknowns", pos 30) ∷ [];
}

abbrev built : BuiltContext
built = record {
  system_message = "Plan.";
  user_message = "Requirement: pay\nunknowns: how, when, why";
  sources = [];
  estimated_tokens = 12;
  prompt_name = "p";
  prompt_version = "1";
  prompt_hash = "h";
  project_context_hash = "i";
  context_hash = "j";
}

abbrev digest : BuiltContext → String
digest c = "k"

abbrev trimmed : BudgetResult
trimmed = record {
  context = record built { user_message = "Requirement: pay"; context_hash = "k" };
  policy = policy;
  original_estimated_tokens = 14;
  final_estimated_tokens = 8;
  was_trimmed = true;
  removed_sections = record { name = "unknowns"; estimated_tokens = 6; priority = pos 30 } ∷ [];
}

apply_trims : apply digest policy built ≡ ok trimmed
unfolding apply input_budget estimate_context estimate join_lines make_context check_trimmed
    join_sections strip trim_sections removal_order sort_by split_user_message group_lines
    split_lines detect_section starts_with reverse_lines get insert_by is_space lstrip reverse_onto
    blank_out enumerate_from estimate_with_sections priority trim_loop text_length total_length
    find_section split_from
apply_trims = refl

apply-IsBudgeted_example : IsBudgeted digest policy built trimmed
apply-IsBudgeted_example = apply-IsBudgeted digest policy built trimmed apply_trims
