-- ===== src/Policy/RuntimeGuard.antt =====
-- src/specflow/policy/runtime_guard.py. Time is a natural number of seconds. A method returns the guard
-- beside its result or error, since `consume_revision` counts before it raises.
pub mod Limits
pub mod Accounts
use specflow_agent.Prelude.{
  ℕ, ◌+◌, ◌-◌, Bool, true, false, List, [], ◌∷◌, Result, ok, err, ltb, if◌then◌else◌,
}
use specflow_agent.Prelude.Int.{ℤ, pos, negsuc}
use specflow_agent.Policy.Models.{ExecutionPolicy}

-- The codes of its `SpecFlowError`.
pub data LimitError : Type 0 where
  call_budget_exceeded token_budget_exceeded parallel_agent_limit_exceeded : LimitError
  revision_budget_exceeded time_budget_exceeded artifact_limit_exceeded : LimitError

pub record RuntimeGuard : Type 0 where
  pub policy : ExecutionPolicy
  pub started_at : ℕ
  pub llm_calls : ℕ
  pub total_input_tokens : ℕ
  pub total_output_tokens : ℕ
  pub revision_count : ℕ

-- RuntimeGuard.__init__
unfoldable pub new_runtime_guard : ExecutionPolicy → ℕ → RuntimeGuard
new_runtime_guard policy now = record {
  policy = policy;
  started_at = now;
  llm_calls = 0;
  total_input_tokens = 0;
  total_output_tokens = 0;
  revision_count = 0;
}

abbrev pub Consumed : Type 0
Consumed = RuntimeGuard × Result LimitError (Unit {0})

unfoldable pub consume_llm_call : RuntimeGuard → Consumed
consume_llm_call g =
    let next_value = g.llm_calls + 1 in
    if ltb g.policy.max_llm_calls next_value
    then (g, err call_budget_exceeded)
    else (record g { llm_calls = next_value }, ok tt)

-- A count of tokens as a provider reports it.
pub data TokenCount : Type 0 where
  integer : ℤ → TokenCount
  not_an_integer : TokenCount

abbrev pub total_limit : RuntimeGuard → Bool → ℕ
total_limit g is_retry =
    if is_retry
    then g.policy.tokens.max_run_total_tokens
    else g.policy.tokens.max_run_total_tokens - g.policy.tokens.reserved_retry_tokens

-- The part of `consume_tokens` for counts that are integers and not negative.
unfoldable pub spend_tokens : ℕ → ℕ → Bool → RuntimeGuard → Consumed
spend_tokens input_tokens output_tokens is_retry g =
    let next_input = g.total_input_tokens + input_tokens in
    let next_output = g.total_output_tokens + output_tokens in
    if ltb g.policy.tokens.max_agent_input_tokens input_tokens
    then (g, err token_budget_exceeded)
    else if ltb g.policy.tokens.max_agent_output_tokens output_tokens
    then (g, err token_budget_exceeded)
    else if ltb g.policy.tokens.max_run_input_tokens next_input
    then (g, err token_budget_exceeded)
    else if ltb g.policy.tokens.max_run_output_tokens next_output
    then (g, err token_budget_exceeded)
    else if ltb (total_limit g is_retry) (next_input + next_output)
    then (g, err token_budget_exceeded)
    else (record g { total_input_tokens = next_input; total_output_tokens = next_output }, ok tt)

unfoldable pub consume_tokens : TokenCount → TokenCount → Bool → RuntimeGuard → Consumed
consume_tokens (integer (pos i)) (integer (pos o)) is_retry g = spend_tokens i o is_retry g
consume_tokens _ _ is_retry g = (g, err token_budget_exceeded)

unfoldable pub check_parallel_agents : ℤ → RuntimeGuard → Consumed
check_parallel_agents (negsuc n) g = (g, err parallel_agent_limit_exceeded)
check_parallel_agents (pos count) g =
    if ltb g.policy.max_parallel_agents count
    then (g, err parallel_agent_limit_exceeded)
    else (g, ok tt)

unfoldable pub consume_revision : RuntimeGuard → Consumed
consume_revision g =
    let counted = record g { revision_count = g.revision_count + 1 } in
    if ltb g.policy.max_revisions (g.revision_count + 1)
    then (counted, err revision_budget_exceeded)
    else (counted, ok tt)

unfoldable pub check_wall_time : ℕ → RuntimeGuard → Consumed
check_wall_time now g =
    if ltb g.policy.max_wall_time_seconds (now - g.started_at)
    then (g, err time_budget_exceeded)
    else (g, ok tt)

abbrev pub deadline : RuntimeGuard → ℕ
deadline g = g.started_at + g.policy.max_wall_time_seconds

-- remaining_time, where the subtraction that stops at 0 is `max(0.0, …)`
unfoldable pub remaining_time : ℕ → RuntimeGuard → ℕ
remaining_time now g = deadline g - now

unfoldable pub check_artifact_size : ℕ → RuntimeGuard → Consumed
check_artifact_size size_bytes g =
    if ltb g.policy.artifacts.max_artifact_bytes size_bytes
    then (g, err artifact_limit_exceeded)
    else (g, ok tt)

-- A call of one of the guard's methods.
pub data Use : Type 0 where
  llm_call revision : Use
  tokens : TokenCount → TokenCount → Bool → Use
  parallel_agents : ℤ → Use
  wall_time artifact_size : ℕ → Use

unfoldable pub use_guard : Use → RuntimeGuard → Consumed
use_guard llm_call g = consume_llm_call g
use_guard revision g = consume_revision g
use_guard (tokens i o is_retry) g = consume_tokens i o is_retry g
use_guard (parallel_agents n) g = check_parallel_agents n g
use_guard (wall_time now) g = check_wall_time now g
use_guard (artifact_size n) g = check_artifact_size n g

-- The guard after any calls, in order.
unfoldable pub use_all : RuntimeGuard → List Use → RuntimeGuard
use_all g [] = g
use_all g (u ∷ us) = use_all (use_guard u g).0 us
