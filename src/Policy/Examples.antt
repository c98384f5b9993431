-- ===== src/Policy/Examples.antt =====
-- Runs of src/specflow/policy/runtime_guard.py and budget.py.
use specflow_agent.Prelude.{◌+◌, ◌≡◌, refl, true, false, List, [], ◌∷◌, ok, count_if, arith}
use specflow_agent.Prelude.Int.{pos, negsuc}
use specflow_agent.Policy.Models.{default_policy, check_tokens, check_positive}
use specflow_agent.Policy.RuntimeGuard.{
  new_runtime_guard, integer, not_an_integer, Use, llm_call, revision, tokens, parallel_agents,
  wall_time, use_guard, use_all, consume_llm_call, consume_tokens, spend_tokens,
}
use specflow_agent.Policy.RuntimeGuard.Limits.{Within, run-Within, retry-accepted}
use specflow_agent.Policy.RuntimeGuard.Accounts.{
  tally, calls_of, input_of, output_of, is_revision, use_all-tally,
}
use specflow_agent.Policy.Budget.{
  new_budget, Reservation, for_llm_call, for_revision, reserve_all, IsBounded,
  reserve_all-IsBounded,
}

abbrev uses : List Use
uses =
    llm_call
    ∷ tokens (integer (pos 9000)) (integer (pos 2000)) false
    ∷ revision
    ∷ revision
    ∷ tokens (integer (negsuc 0)) not_an_integer false
    ∷ wall_time 400
    ∷ parallel_agents (pos 4)
    ∷ []

run-Within_example : Within (use_all (new_runtime_guard default_policy 7) uses) 10 50000 12000 62000
run-Within_example = run-Within default_policy 7 uses

default_tokens : check_tokens default_policy.tokens ≡ ok tt
unfolding check_tokens check_positive
default_tokens = refl

abbrev first_calls : List Use
first_calls = llm_call ∷ tokens (integer (pos 9000)) (integer (pos 2000)) false ∷ []

first_input : (use_all (new_runtime_guard default_policy 7) first_calls).total_input_tokens ≡ 9000
unfolding use_all use_guard consume_llm_call consume_tokens spend_tokens new_runtime_guard
first_input = refl

first_output : (use_all (new_runtime_guard default_policy 7) first_calls).total_output_tokens ≡ 2000
unfolding use_all use_guard consume_llm_call consume_tokens spend_tokens new_runtime_guard
first_output = refl

retry-accepted_example :
    (consume_tokens
      (integer (pos 4000))
      (integer (pos 2000))
      true
      (use_all (new_runtime_guard default_policy 7) first_calls)).1
    ≡ ok tt
retry-accepted_example =
    retry-accepted default_policy 7 first_calls 4000 2000 default_tokens refl (omega arith)
      (omega arith) (omega (arith, first_input)) (omega (arith, first_output)) (omega arith)

use_all-tally_example :
    let g = new_runtime_guard default_policy 7 in
    ((use_all g uses).llm_calls ≡ g.llm_calls + tally calls_of g uses)
    × ((use_all g uses).total_input_tokens ≡ g.total_input_tokens + tally input_of g uses)
    × ((use_all g uses).total_output_tokens ≡ g.total_output_tokens + tally output_of g uses)
    × ((use_all g uses).revision_count ≡ g.revision_count + count_if is_revision uses)
use_all-tally_example = use_all-tally (new_runtime_guard default_policy 7) uses

abbrev reservations : List Reservation
reservations = for_revision 1 ∷ for_revision 2 ∷ for_llm_call 301 ∷ for_llm_call 3 ∷ []

reserve_all-IsBounded_example :
    IsBounded default_policy 0
      (reserve_all (record { budget = new_budget default_policy 0; granted = [] }) reservations)
reserve_all-IsBounded_example = reserve_all-IsBounded default_policy 0 reservations
