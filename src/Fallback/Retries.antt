-- ===== src/Fallback/Retries.antt =====
-- src/specflow/fallback/strategies.py: the attempts of `RetryStrategy.run`.
use specflow_agent.Prelude.{
  ℕ, String, zero, suc, ◌+◌, ◌≤◌, ◌≡◌, refl, subst, true, false, Option, none, some, List, [], ◌++◌,
  leb, ◌==◌, nat_eq, arith, inl, inr, ◌⊎◌, Bool-cases, All, All-append, leb→le,
}
use specflow_agent.Policy.Errors.{is_retryable}
use specflow_agent.Fallback.{
  CallError, Reply, returned, raised, error_to_code, RetryStrategy, RetryRun, backoff, is_final,
  run_loop, run,
}

-- The calls before the n-th raised errors that are retried.
abbrev pub AllRetried : (ℕ → Reply) → ℕ → Type 0
AllRetried operation zero = Unit
AllRetried operation (suc n) =
    ((e : CallError) × (operation n ≡ raised e) × (is_retryable (error_to_code e) ≡ true))
    × AllRetried operation n

-- How a run ended after its call n.
pub data Ended (s : RetryStrategy) (operation : ℕ → Reply) (r : RetryRun) (n : ℕ) : Type 0 where
  in_success : operation n ≡ returned r.content → r.error ≡ none → Ended s operation r n
  in_failure :
      (e : CallError)
      → operation n ≡ raised e
      → (is_retryable (error_to_code e) ≡ false) ⊎ (n ≡ s.max_retries)
      → r.error ≡ some e
      → Ended s operation r n

-- What a run of the strategy did: it made the calls 0 to n.
pub record Attempted (s : RetryStrategy) (operation : ℕ → Reply) (r : RetryRun) (n : ℕ)
    : Type 0 where
  pub counted : r.retries ≡ n
  pub bounded : n ≤ s.max_retries
  pub retried : AllRetried operation n
  pub ended : Ended s operation r n
  pub rested : All (λ ms. ms ≤ 5000) r.sleeps

Reply-cases : (r : Reply) → ((t : String) × (r ≡ returned t)) ⊎ ((e : CallError) × (r ≡ raised e))
Reply-cases (returned t) = inl (t, refl)
Reply-cases (raised e) = inr (e, refl)

backoff_bounded : (s : RetryStrategy) (n : ℕ) → All (λ ms. ms ≤ 5000) (backoff s n)
backoff_bounded s n = elim (Bool-cases (s.base_backoff == 0)) [
  | inl e ↦ rw e tt
  | inr e ↦ rw e (omega arith, tt)
]

next_retried :
    (operation : ℕ → Reply) (n : ℕ) (e : CallError)
    → operation n ≡ raised e
    → is_retryable (error_to_code e) ≡ true
    → AllRetried operation n
    → AllRetried operation (n + 1)
next_retried operation n e at retryable before =
    let next : suc n ≡ n + 1 = omega arith in
    subst (AllRetried operation) next ((e, at, retryable), before)

module _ (s : RetryStrategy) (attempts : ℕ) (error : CallError) where
  final-cases :
      attempts ≤ s.max_retries
      → is_final s attempts error ≡ true
      → (is_retryable (error_to_code error) ≡ false) ⊎ (attempts ≡ s.max_retries)
  final-cases within final = elim (Bool-cases (leb s.max_retries attempts)) [
    | inl e ↦ inr (omega (arith, leb→le s.max_retries attempts e))
    | inr e ↦ inl (ground (arith, final, e))
  ]

  again-cases :
      is_final s attempts error ≡ false
      → (is_retryable (error_to_code error) ≡ true) × (attempts + 1 ≤ s.max_retries)
  again-cases again = elim (Bool-cases (leb s.max_retries attempts)) [
    | inl e ↦ absurd (ground (arith, again, e))
    | inr e ↦ (ground (arith, again, e), ground (arith, e))
  ]

run_loop-Attempted :
    (s : RetryStrategy) (operation : ℕ → Reply) (rounds attempts : ℕ) (last : Option CallError)
    (sleeps : List ℕ)
    → rounds + attempts ≡ s.max_retries + 1
    → attempts ≤ s.max_retries
    → AllRetried operation attempts
    → All (λ ms. ms ≤ 5000) sleeps
    → (n : ℕ) × Attempted s operation (run_loop s operation rounds attempts last sleeps) n
unfolding run_loop
run_loop-Attempted s operation zero attempts last sleeps left within retried rested =
    absurd (omega (arith, left, within))
run_loop-Attempted s operation (suc rounds) attempts last sleeps left within retried rested =
    elim (Reply-cases (operation attempts)) [
      | inl (t, e) ↦ (
        attempts,
        rw (e, run_loop)
            (record {
              counted = refl;
              bounded = within;
              retried = retried;
              ended = in_success e refl;
              rested = rested;
            }),
      )
      | inr (error, e) ↦ elim (Bool-cases (is_final s attempts error)) [
        | inl final ↦ (
          attempts,
          rw (e, run_loop)
              (rw final (record {
                counted = refl;
                bounded = within;
                retried = retried;
                ended = in_failure error e (final-cases s attempts error within final) refl;
                rested = rested;
              })),
        )
        | inr again ↦
            let (retryable, more) = again-cases s attempts error again in
            let (n, attempted) =
              run_loop-Attempted s operation rounds (attempts + 1) (some error)
                (sleeps ++ backoff s (attempts + 1)) (omega (arith, left)) more
                (next_retried operation attempts error e retryable retried)
                (All-append (λ (ms : ℕ). ms ≤ 5000) sleeps (backoff s (attempts + 1)) rested
                  (backoff_bounded s (attempts + 1))) in
            (n, rw (e, run_loop) (rw again attempted))
      ]
    ]

-- A run of the strategy makes at most one call more than max_retries, each after the first only when
-- every call before it raised an error that is retried. It ends at the first call that returns, with
-- that call's text, or at the first error that is not to be retried or uses up the retries, with that
-- error; the number of retries that it reports is that of the calls before the last. No sleep is
-- longer than five seconds.
pub run-Attempted :
    (s : RetryStrategy) (operation : ℕ → Reply)
    → (n : ℕ) × Attempted s operation (run s operation) n
unfolding run
run-Attempted s operation =
    run_loop-Attempted s operation (s.max_retries + 1) 0 none [] (omega arith) (omega arith) tt tt
