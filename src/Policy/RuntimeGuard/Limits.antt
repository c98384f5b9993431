-- ===== src/Policy/RuntimeGuard/Limits.antt =====
-- src/specflow/policy/runtime_guard.py: what any sequence of calls leaves within the limits.
use specflow_agent.Prelude.{
  ℕ, ◌+◌, ◌-◌, ◌≤◌, ◌≡◌, refl, sym, ◌∙◌, subst, Bool, true, false, List, [], ◌∷◌, ok, all, not,
  arith,
}
use specflow_agent.Prelude.Int.{pos, negsuc}
use specflow_agent.Policy.Models.{ExecutionPolicy, TokenPolicy, check_tokens, check_positive}
use specflow_agent.Policy.RuntimeGuard.{
  RuntimeGuard, new_runtime_guard, consume_llm_call, integer, not_an_integer, total_limit,
  spend_tokens, consume_tokens, check_parallel_agents, consume_revision, check_wall_time,
  check_artifact_size, Use, llm_call, revision, tokens, parallel_agents, wall_time, artifact_size,
  use_guard, use_all,
}

-- The counters of a guard keep to limits on calls and tokens.
pub record Within (g : RuntimeGuard) (calls input output total : ℕ) : Type 0 where
  pub calls_bounded : g.llm_calls ≤ calls
  pub input_bounded : g.total_input_tokens ≤ input
  pub output_bounded : g.total_output_tokens ≤ output
  pub total_bounded : g.total_input_tokens + g.total_output_tokens ≤ total

-- The counters keep to the limits of the guard's policy, the total to a limit of one's own.
abbrev pub Keeps : RuntimeGuard → ℕ → Type 0
Keeps g total =
    Within g g.policy.max_llm_calls g.policy.tokens.max_run_input_tokens
      g.policy.tokens.max_run_output_tokens total

spend-Keeps :
    (i o : ℕ) (is_retry : Bool) (g : RuntimeGuard) (total : ℕ)
    → total_limit g is_retry ≤ total
    → Keeps g total
    → Keeps (spend_tokens i o is_retry g).0 total
unfolding spend_tokens
spend-Keeps i o is_retry g total room k = ground arith

spend-policy :
    (i o : ℕ) (is_retry : Bool) (g : RuntimeGuard)
    → (spend_tokens i o is_retry g).0.policy ≡ g.policy
unfolding spend_tokens
spend-policy i o is_retry g = ground arith

pub use-policy : (u : Use) (g : RuntimeGuard) → (use_guard u g).0.policy ≡ g.policy
unfolding use_guard consume_llm_call consume_revision consume_tokens check_parallel_agents
    check_wall_time check_artifact_size
use-policy llm_call g = ground arith
use-policy revision g = ground arith
use-policy (tokens (integer (pos i)) (integer (pos o)) is_retry) g = spend-policy i o is_retry g
use-policy (tokens (integer (pos i)) (integer (negsuc o)) is_retry) g = refl
use-policy (tokens (integer (pos i)) not_an_integer is_retry) g = refl
use-policy (tokens (integer (negsuc i)) o is_retry) g = refl
use-policy (tokens not_an_integer o is_retry) g = refl
use-policy (parallel_agents (pos n)) g = ground arith
use-policy (parallel_agents (negsuc n)) g = refl
use-policy (wall_time now) g = ground arith
use-policy (artifact_size n) g = ground arith

abbrev pub is_retry_use : Use → Bool
is_retry_use (tokens i o is_retry) = is_retry
is_retry_use _ = false

use-Keeps :
    (u : Use) (g : RuntimeGuard) (total : ℕ)
    → total_limit g (is_retry_use u) ≤ total
    → Keeps g total
    → Keeps (use_guard u g).0 total
unfolding use_guard consume_llm_call consume_revision consume_tokens check_parallel_agents
    check_wall_time check_artifact_size
use-Keeps llm_call g total room k = ground arith
use-Keeps revision g total room k = ground arith
use-Keeps (tokens (integer (pos i)) (integer (pos o)) is_retry) g total room k =
    spend-Keeps i o is_retry g total room k
use-Keeps (tokens (integer (pos i)) (integer (negsuc o)) is_retry) g total room k = k
use-Keeps (tokens (integer (pos i)) not_an_integer is_retry) g total room k = k
use-Keeps (tokens (integer (negsuc i)) o is_retry) g total room k = k
use-Keeps (tokens not_an_integer o is_retry) g total room k = k
use-Keeps (parallel_agents (pos n)) g total room k = ground arith
use-Keeps (parallel_agents (negsuc n)) g total room k = k
use-Keeps (wall_time now) g total room k = ground arith
use-Keeps (artifact_size n) g total room k = ground arith

use_all-policy : (g : RuntimeGuard) (us : List Use) → (use_all g us).policy ≡ g.policy
unfolding use_all
use_all-policy g [] = refl
use_all-policy g (u ∷ us) = use_all-policy (use_guard u g).0 us ∙ use-policy u g

use_all-Keeps :
    (g : RuntimeGuard) (us : List Use) (total : ℕ)
    → g.policy.tokens.max_run_total_tokens ≤ total
    → Keeps g total
    → Keeps (use_all g us) total
unfolding use_all
use_all-Keeps g [] total room k = k
use_all-Keeps g (u ∷ us) total room k =
    use_all-Keeps (use_guard u g).0 us total
      (subst (λ p. p.tokens.max_run_total_tokens ≤ total) (sym (use-policy u g)) room)
      (use-Keeps u g total (ground arith) k)

start-Keeps : (p : ExecutionPolicy) (now total : ℕ) → Keeps (new_runtime_guard p now) total
unfolding new_runtime_guard
start-Keeps p now total = ground arith

start-policy : (p : ExecutionPolicy) (now : ℕ) → (new_runtime_guard p now).policy ≡ p
unfolding new_runtime_guard
start-policy p now = refl

-- After any calls of a new guard's methods, accepted or refused, the calls of the model, the input,
-- the output and all tokens of the run keep to the policy.
pub run-Within :
    (p : ExecutionPolicy) (now : ℕ) (us : List Use)
    → Within
        (use_all (new_runtime_guard p now) us)
        p.max_llm_calls
        p.tokens.max_run_input_tokens
        p.tokens.max_run_output_tokens
        p.tokens.max_run_total_tokens
run-Within p now us =
    let g = new_runtime_guard p now in
    let same = use_all-policy g us ∙ start-policy p now in
    let keeps =
      use_all-Keeps g us p.tokens.max_run_total_tokens
        (subst (λ q. q.tokens.max_run_total_tokens ≤ p.tokens.max_run_total_tokens)
          (sym (start-policy p now)) (omega arith))
        (start-Keeps p now p.tokens.max_run_total_tokens) in
    subst
      (λ q.
        Within (use_all g us) q.max_llm_calls q.tokens.max_run_input_tokens
          q.tokens.max_run_output_tokens p.tokens.max_run_total_tokens)
      same keeps

-- Calls without a retry leave the reserve of the retries.
use_all-Reserves :
    (g : RuntimeGuard) (us : List Use) (total : ℕ)
    → g.policy.tokens.max_run_total_tokens - g.policy.tokens.reserved_retry_tokens ≤ total
    → all (λ u. not (is_retry_use u)) us ≡ true
    → Keeps g total
    → Keeps (use_all g us) total
unfolding use_all
use_all-Reserves g [] total room normal k = k
use_all-Reserves g (u ∷ us) total room normal k =
    use_all-Reserves (use_guard u g).0 us total
      (subst (λ p. p.tokens.max_run_total_tokens - p.tokens.reserved_retry_tokens ≤ total)
        (sym (use-policy u g)) room)
      (ground (arith, normal)) (use-Keeps u g total (ground (arith, normal)) k)

spend-ok :
    (i o : ℕ) (g : RuntimeGuard)
    → i ≤ g.policy.tokens.max_agent_input_tokens
    → o ≤ g.policy.tokens.max_agent_output_tokens
    → g.total_input_tokens + i ≤ g.policy.tokens.max_run_input_tokens
    → g.total_output_tokens + o ≤ g.policy.tokens.max_run_output_tokens
    → g.total_input_tokens + g.total_output_tokens + i + o ≤ g.policy.tokens.max_run_total_tokens
    → (spend_tokens i o true g).1 ≡ ok tt
unfolding spend_tokens
spend-ok i o g hi ho ri ro rt = ground arith

reserve-below :
    (p : TokenPolicy) → check_tokens p ≡ ok tt → p.reserved_retry_tokens ≤ p.max_run_total_tokens
unfolding check_tokens check_positive
reserve-below p h = ground arith

-- After calls of which none is a retry, on a policy that its constructor accepts, a retry that keeps
-- to the limits of one agent and to the run's input and output, and needs at most the reserve, is
-- accepted: the other calls cannot have used the reserve up.
pub retry-accepted :
    (p : ExecutionPolicy) (now : ℕ) (us : List Use) (i o : ℕ)
    → check_tokens p.tokens ≡ ok tt
    → all (λ u. not (is_retry_use u)) us ≡ true
    → i ≤ p.tokens.max_agent_input_tokens
    → o ≤ p.tokens.max_agent_output_tokens
    → (use_all (new_runtime_guard p now) us).total_input_tokens + i ≤ p.tokens.max_run_input_tokens
    → (use_all (new_runtime_guard p now) us).total_output_tokens + o
      ≤ p.tokens.max_run_output_tokens
    → i + o ≤ p.tokens.reserved_retry_tokens
    → (consume_tokens
        (integer (pos i))
        (integer (pos o))
        true
        (use_all (new_runtime_guard p now) us)).1
      ≡ ok tt
unfolding consume_tokens
retry-accepted p now us i o valid normal hi ho ri ro small =
    let g = use_all (new_runtime_guard p now) us in
    let total = p.tokens.max_run_total_tokens - p.tokens.reserved_retry_tokens in
    let same = use_all-policy (new_runtime_guard p now) us ∙ start-policy p now in
    let keeps =
      use_all-Reserves (new_runtime_guard p now) us total
        (subst (λ q. q.tokens.max_run_total_tokens - q.tokens.reserved_retry_tokens ≤ total)
          (sym (start-policy p now)) (omega arith))
        normal (start-Keeps p now total) in
    spend-ok i o g (subst (λ q. i ≤ q.tokens.max_agent_input_tokens) (sym same) hi)
      (subst (λ q. o ≤ q.tokens.max_agent_output_tokens) (sym same) ho)
      (subst (λ q. g.total_input_tokens + i ≤ q.tokens.max_run_input_tokens) (sym same) ri)
      (subst (λ q. g.total_output_tokens + o ≤ q.tokens.max_run_output_tokens) (sym same) ro)
      (subst
        (λ q. g.total_input_tokens + g.total_output_tokens + i + o ≤ q.tokens.max_run_total_tokens)
        (sym same) (omega (arith, keeps.total_bounded, reserve-below p.tokens valid, small)))
