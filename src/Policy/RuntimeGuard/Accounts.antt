-- ===== src/Policy/RuntimeGuard/Accounts.antt =====
-- src/specflow/policy/runtime_guard.py: the counters and the calls that were accepted.
use specflow_agent.Prelude.{
  ℕ, ◌+◌, ◌-◌, ◌≡◌, ap, min, Bool, true, false, List, [], ◌∷◌, Result, ok, err, ltb, count_if,
  if◌then◌else◌, arith,
}
use specflow_agent.Prelude.Int.{pos, negsuc}
use specflow_agent.Policy.RuntimeGuard.{
  RuntimeGuard, LimitError, consume_llm_call, TokenCount, integer, not_an_integer, spend_tokens,
  consume_tokens, check_parallel_agents, consume_revision, check_wall_time, check_artifact_size,
  Use, llm_call, revision, tokens, parallel_agents, wall_time, artifact_size, use_guard, use_all,
}
use specflow_agent.Policy.RuntimeGuard.Limits.{use-policy}

abbrev pub is_ok {ℓ} : {A : Type ℓ} → Result LimitError A → Bool
is_ok (ok a) = true
is_ok (err e) = false

-- The sum of a weight over the calls that are accepted.
unfoldable pub tally : (Use → ℕ) → RuntimeGuard → List Use → ℕ
tally weight g [] = 0
tally weight g (u ∷ us) =
    (if is_ok (use_guard u g).1 then weight u else 0) + tally weight (use_guard u g).0 us

abbrev pub calls_of : Use → ℕ
calls_of llm_call = 1
calls_of _ = 0

abbrev pub amount : TokenCount → ℕ
amount (integer (pos n)) = n
amount _ = 0

abbrev pub input_of : Use → ℕ
input_of (tokens i o is_retry) = amount i
input_of _ = 0

abbrev pub output_of : Use → ℕ
output_of (tokens i o is_retry) = amount o
output_of _ = 0

abbrev pub is_revision : Use → Bool
is_revision revision = true
is_revision _ = false

-- A guard before and after one call, which was accepted or not.
record Accounted (u : Use) (g g' : RuntimeGuard) (accepted : Bool) : Type 0 where
  calls : g'.llm_calls ≡ g.llm_calls + (if accepted then calls_of u else 0)
  input : g'.total_input_tokens ≡ g.total_input_tokens + (if accepted then input_of u else 0)
  output : g'.total_output_tokens ≡ g.total_output_tokens + (if accepted then output_of u else 0)
  revisions : g'.revision_count ≡ g.revision_count + (if is_revision u then 1 else 0)

use-Accounted :
    (u : Use) (g : RuntimeGuard) → Accounted u g (use_guard u g).0 (is_ok (use_guard u g).1)
unfolding use_guard consume_llm_call consume_revision consume_tokens spend_tokens
    check_parallel_agents check_wall_time check_artifact_size
use-Accounted llm_call g = ground arith
use-Accounted revision g = ground arith
use-Accounted (tokens (integer (pos i)) (integer (pos o)) is_retry) g = ground arith
use-Accounted (tokens (integer (pos i)) (integer (negsuc o)) is_retry) g = ground arith
use-Accounted (tokens (integer (pos i)) not_an_integer is_retry) g = ground arith
use-Accounted (tokens (integer (negsuc i)) o is_retry) g = ground arith
use-Accounted (tokens not_an_integer o is_retry) g = ground arith
use-Accounted (parallel_agents (pos n)) g = ground arith
use-Accounted (parallel_agents (negsuc n)) g = ground arith
use-Accounted (wall_time now) g = ground arith
use-Accounted (artifact_size n) g = ground arith

-- After any calls, the counters have grown by what was accepted, except that the revisions count
-- every request, refused ones included.
pub use_all-tally :
    (g : RuntimeGuard) (us : List Use)
    → ((use_all g us).llm_calls ≡ g.llm_calls + tally calls_of g us)
      × ((use_all g us).total_input_tokens ≡ g.total_input_tokens + tally input_of g us)
      × ((use_all g us).total_output_tokens ≡ g.total_output_tokens + tally output_of g us)
      × ((use_all g us).revision_count ≡ g.revision_count + count_if is_revision us)
unfolding use_all tally
use_all-tally g [] = (omega arith, omega arith, omega arith, omega arith)
use_all-tally g (u ∷ us) =
    let step = use-Accounted u g in
    let rest = use_all-tally (use_guard u g).0 us in
    (
      omega (arith, step.calls, rest.0),
      omega (arith, step.input, rest.1),
      omega (arith, step.output, rest.2),
      ground (arith, step.revisions, rest.3),
    )

abbrev pub revisions_of : Use → ℕ
revisions_of revision = 1
revisions_of _ = 0

revision-granted :
    (u : Use) (g : RuntimeGuard)
    → (if is_ok (use_guard u g).1 then revisions_of u else 0) ≡ (
        if is_revision u then (if ltb g.revision_count g.policy.max_revisions then 1 else 0) else 0)
unfolding use_guard consume_revision
revision-granted llm_call g = ground arith
revision-granted revision g = ground arith
revision-granted (tokens i o is_retry) g = ground arith
revision-granted (parallel_agents n) g = ground arith
revision-granted (wall_time now) g = ground arith
revision-granted (artifact_size n) g = ground arith

-- Of any requests for revisions, a guard grants as many as its policy leaves.
pub revisions-tally :
    (g : RuntimeGuard) (us : List Use)
    → tally revisions_of g us
      ≡ min (count_if is_revision us) (g.policy.max_revisions - g.revision_count)
unfolding tally
revisions-tally g [] = omega arith
revisions-tally g (u ∷ us) =
    let same = ap (λ p. p.max_revisions) (use-policy u g) in
    ground (
      arith,
      (use-Accounted u g).revisions,
      revision-granted u g,
      revisions-tally (use_guard u g).0 us,
      same,
    )
