-- ===== src/Policy/Budget.antt =====
-- src/specflow/policy/budget.py. Time is a natural number of seconds; the time of a call is an argument.
use specflow_agent.Prelude.{
  ℕ, ◌+◌, ◌-◌, ◌≤◌, ◌≡◌, refl, Bool, true, false, not, All, count_if, List, [], ◌∷◌, Result, ok,
  err, ◌>>◌, raise_if, ltb, leb, arith,
}
use specflow_agent.Policy.Errors.{
  ErrorCode, budget_wall_time, budget_llm_calls, budget_revision_exhausted,
}
use specflow_agent.Policy.Models.{ExecutionPolicy}

pub record ExecutionBudget : Type 0 where
  pub policy : ExecutionPolicy
  pub started_at : ℕ
  pub llm_calls : ℕ
  pub revisions : ℕ

-- ExecutionBudget.check_wall_time
unfoldable pub check_budget_time : ℕ → ExecutionBudget → Result ErrorCode (Unit {0})
check_budget_time now b =
    raise_if (ltb b.policy.max_wall_time_seconds (now - b.started_at)) budget_wall_time

unfoldable pub reserve_llm_call : ℕ → ExecutionBudget → Result ErrorCode ExecutionBudget
unfolding check_budget_time
reserve_llm_call now b = do
  check_budget_time now b
  raise_if (leb b.policy.max_llm_calls b.llm_calls) budget_llm_calls
  ok (record b { llm_calls = b.llm_calls + 1 })

unfoldable pub reserve_revision : ℕ → ExecutionBudget → Result ErrorCode ExecutionBudget
unfolding check_budget_time
reserve_revision now b = do
  check_budget_time now b
  raise_if (leb b.policy.max_revisions b.revisions) budget_revision_exhausted
  ok (record b { revisions = b.revisions + 1 })

-- A reservation and its time.
pub data Reservation : Type 0 where
  for_llm_call for_revision : ℕ → Reservation

unfoldable pub reserve : Reservation → ExecutionBudget → Result ErrorCode ExecutionBudget
reserve (for_llm_call now) b = reserve_llm_call now b
reserve (for_revision now) b = reserve_revision now b

-- A budget and the reservations that it granted, the latest first.
pub record Ledger : Type 0 where
  pub budget : ExecutionBudget
  pub granted : List Reservation

-- A raise leaves the object as it was.
abbrev pub after : Ledger → Reservation → Result ErrorCode ExecutionBudget → Ledger
after l r (ok b) = record { budget = b; granted = r ∷ l.granted }
after l r (err e) = l

unfoldable pub reserve_all : Ledger → List Reservation → Ledger
reserve_all l [] = l
reserve_all l (r ∷ rs) = reserve_all (after l r (reserve r l.budget)) rs

abbrev pub new_budget : ExecutionPolicy → ℕ → ExecutionBudget
new_budget policy now = record { policy = policy; started_at = now; llm_calls = 0; revisions = 0 }

abbrev pub time_of : Reservation → ℕ
time_of (for_llm_call now) = now
time_of (for_revision now) = now

abbrev pub is_call : Reservation → Bool
is_call (for_llm_call now) = true
is_call (for_revision now) = false

-- The counters count what was granted, within the policy, and all of it in time.
pub record IsBounded (policy : ExecutionPolicy) (start : ℕ) (l : Ledger) : Type 0 where
  pub policy_kept : l.budget.policy ≡ policy
  pub start_kept : l.budget.started_at ≡ start
  pub calls_counted : count_if is_call l.granted ≡ l.budget.llm_calls
  pub revisions_counted : count_if (λ r. not (is_call r)) l.granted ≡ l.budget.revisions
  pub calls_bounded : l.budget.llm_calls ≤ policy.max_llm_calls
  pub revisions_bounded : l.budget.revisions ≤ policy.max_revisions
  pub timely : All (λ r. time_of r ≤ start + policy.max_wall_time_seconds) l.granted

reserve-IsBounded :
    (policy : ExecutionPolicy) (start : ℕ) (r : Reservation) (l : Ledger)
    → IsBounded policy start l
    → IsBounded policy start (after l r (reserve r l.budget))
unfolding reserve reserve_llm_call reserve_revision check_budget_time
reserve-IsBounded policy start (for_llm_call now) l h = ground arith
reserve-IsBounded policy start (for_revision now) l h = ground arith

reserve_all-kept :
    (policy : ExecutionPolicy) (start : ℕ) (l : Ledger) (rs : List Reservation)
    → IsBounded policy start l
    → IsBounded policy start (reserve_all l rs)
unfolding reserve_all
reserve_all-kept policy start l [] h = h
reserve_all-kept policy start l (r ∷ rs) h =
    reserve_all-kept policy start (after l r (reserve r l.budget)) rs
      (reserve-IsBounded policy start r l h)

-- After any reservations on a new budget, at any times, its counters are the numbers of calls and of
-- revisions that it granted, neither exceeds the limit of the policy, and every one was granted at a
-- time within the policy's wall time from the start.
pub reserve_all-IsBounded :
    (policy : ExecutionPolicy) (start : ℕ) (rs : List Reservation)
    → IsBounded policy start
        (reserve_all (record { budget = new_budget policy start; granted = [] }) rs)
reserve_all-IsBounded policy start rs =
    reserve_all-kept policy start (record { budget = new_budget policy start; granted = [] }) rs
      (record {
        policy_kept = refl;
        start_kept = refl;
        calls_counted = refl;
        revisions_counted = refl;
        calls_bounded = omega arith;
        revisions_bounded = omega arith;
        timely = tt;
      })
