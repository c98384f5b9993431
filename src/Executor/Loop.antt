-- ===== src/Executor/Loop.antt =====
-- src/specflow/executor/engine.py: the loop of `execute_until_complete`, from a new executor and from
-- a restored one.
use specflow_agent.Prelude.{
  ℕ, zero, suc, ◌+◌, ◌≤◌, ◌<◌, ◌≡◌, refl, ◌≢◌, inl, inr, String, Bool, true, false, some, List, [],
  ◌∷◌, ◌++◌, append-nil, append_assoc, contains, ok, err, all, length, arith, if◌then◌else◌,
  Bool-cases, sym, subst, ap, ◌∙◌,
}
use specflow_agent.Workflow.{
  State, created, analyzing, generating, reviewing, completed, failed, state_eq, Engine,
  terminal_states, StateTransition, can_transition,
}
use specflow_agent.Workflow.History.{IsLogged, Leads}
use specflow_agent.Executor.{
  Handlers, ExecutionResult, Executor, Step, make_executor, execute_next, execute_until, go_on, Run,
  steps_from, step_for_transition, step_for_state, add_option,
}
use specflow_agent.Executor.Steps.{IsReady, AreOpen, open_after, next, HasHandlers}
use specflow_agent.Executor.Completion.{Good, execute_next-Good}

-- How many calls a state is from COMPLETED.
abbrev pub remaining : State → ℕ
remaining created = 4
remaining analyzing = 3
remaining generating = 2
remaining reviewing = 1
remaining _ = 0

abbrev pub all_succeeded : List ExecutionResult → Bool
all_succeeded rs = all (λ r. r.success) rs

-- The end of a run: COMPLETED if every call succeeded, FAILED otherwise.
abbrev pub verdict : List ExecutionResult → State
verdict rs = if all_succeeded rs then completed else failed

-- The loop ended without an exception, with `rs` more results, after at most `n` calls.
pub record Ends (n : ℕ) (x' : Executor) (rs : List ExecutionResult) : Type 0 where
  pub ready : IsReady x'
  pub state : x'.workflow.current_state ≡ verdict rs
  pub few : length rs ≤ n

closer : (s : State) → contains terminal_states s ≡ false → remaining s ≡ suc (remaining (next s))
closer created h = refl
closer analyzing h = refl
closer generating h = refl
closer reviewing h = refl
closer completed h = cc
closer failed h = cc

next-ne-failed : (s : State) → next s ≢ failed
next-ne-failed created h = cc
next-ne-failed _ h = cc

ended : (s : State) → contains terminal_states s ≡ true → s ≢ failed → s ≡ completed
ended completed h n = refl
ended failed h n = absurd (n refl)
ended _ h n = cc

verdict_won :
    (r : ExecutionResult) (rs : List ExecutionResult)
    → r.success ≡ true
    → verdict (r ∷ rs) ≡ verdict rs
verdict_won r rs e =
    ap (λ b. if (if b then all_succeeded rs else false) then completed else failed) e

verdict_lost : (r : ExecutionResult) → r.success ≡ false → verdict (r ∷ []) ≡ failed
verdict_lost r e = ap (λ b. if (if b then true else false) then completed else failed) e

module _ (x : Executor) (r : ExecutionResult) (rest : Executor → List ExecutionResult → Run)
    (results : List ExecutionResult) where
  abbrev branch : Bool → Run
  branch b = elim b [ true ↦ rest x (results ++ r ∷ []) | false ↦ some (x, ok (results ++ r ∷ [])) ]

  go_on_won : r.success ≡ true → go_on rest results (x, ok r) ≡ rest x (results ++ r ∷ [])
  go_on_won e = ap branch e

  go_on_lost : r.success ≡ false → go_on rest results (x, ok r) ≡ some (x, ok (results ++ r ∷ []))
  go_on_lost e = ap branch e

module _ (redact : String → String) (hs : Handlers) (has : HasHandlers hs) where
  abbrev Total : ℕ → ℕ → Executor → List ExecutionResult → Type 0
  Total fuel n x results =
      (x' : Executor) × (rs : List ExecutionResult) × (execute_until redact hs fuel x results
        ≡ some (x', ok (results ++ rs)))
      × Ends n x' rs

  after_call :
      (fuel : ℕ) (x : Executor) (results : List ExecutionResult) (step : Step)
      → contains terminal_states x.workflow.current_state ≡ false
      → execute_next redact hs x ≡ step
      → Good x step
      → ((x' : Executor) (more : List ExecutionResult)
          → IsReady x'
          → x'.workflow.current_state ≡ next x.workflow.current_state
          → Total fuel (remaining (next x.workflow.current_state)) x' more)
      → Total (suc fuel) (remaining x.workflow.current_state) x results
  unfolding execute_until
  after_call fuel x results (x', err e) nt called good rest = elim good [ ]
  after_call fuel x results (x', ok r) nt called good rest = elim (Bool-cases r.success) [
    | inl won ↦
        let reached : x'.workflow.current_state ≡ next x.workflow.current_state =
          good.reached ∙ ap (λ b. if b then next x.workflow.current_state else failed) won in
        let (x'', rs, run, ends) = rest x' (results ++ r ∷ []) good.ready reached in
        (
          x'',
          r ∷ rs,
          rw (nt, called)
              (go_on_won x' r (execute_until redact hs fuel) results won
                ∙ run
                ∙ ap (λ l. some (x'', ok l)) (append_assoc results (r ∷ []) rs)),
          record {
            ready = ends.ready;
            state = ends.state ∙ sym (verdict_won r rs won);
            few = omega (arith, closer x.workflow.current_state nt, ends.few);
          },
        )
    | inr lost ↦ (
      x',
      r ∷ [],
      rw (nt, called) (go_on_lost x' r (execute_until redact hs fuel) results lost),
      record {
        ready = good.ready;
        state =
            good.reached
            ∙ ap (λ b. if b then next x.workflow.current_state else failed) lost
            ∙ sym (verdict_lost r lost);
        few = omega (arith, closer x.workflow.current_state nt);
      },
    )
  ]

  execute_until-Total :
      (fuel : ℕ) (x : Executor) (results : List ExecutionResult)
      → IsReady x
      → x.workflow.current_state ≢ failed
      → remaining x.workflow.current_state < fuel
      → Total fuel (remaining x.workflow.current_state) x results
  unfolding execute_until
  execute_until-Total zero x results ready nf h = elim h [ ]
  execute_until-Total (suc fuel) x results ready nf h =
      elim (Bool-cases (contains terminal_states x.workflow.current_state)) [
        | inl done ↦ (
          x,
          [],
          rw (done, append-nil results),
          record { ready = ready; state = ended _ done nf; few = omega arith },
        )
        | inr more ↦
            after_call fuel x results (execute_next redact hs x) more refl
              (execute_next-Good redact hs has x ready more)
              (λ x' more' ready' moved.
                subst (λ s. Total fuel (remaining s) x' more') moved
                  (execute_until-Total fuel x' more' ready'
                    (λ f. next-ne-failed x.workflow.current_state (sym moved ∙ f))
                    (rw moved (omega (arith, closer x.workflow.current_state more)))))
      ]

open_transition :
    (s t : State) (steps : List String)
    → can_transition s t ≡ true
    → AreOpen s steps
    → AreOpen t (add_option steps (step_for_transition s t))
unfolding can_transition step_for_transition
open_transition created analyzing steps c o =
    open_after created steps "start" (unfold step_for_state in refl) o
open_transition analyzing generating steps c o =
    open_after analyzing steps "analyze" (unfold step_for_state in refl) o
open_transition generating reviewing steps c o =
    open_after generating steps "generate" (unfold step_for_state in refl) o
open_transition s completed steps c o = tt
open_transition s failed steps c o = tt
open_transition s t steps c o = cc

AreOpen-steps_from :
    (n : ℕ) (s t : State) (steps : List String) (hs : List StateTransition)
    → Leads n s hs t
    → AreOpen s steps
    → AreOpen t (steps_from steps hs)
unfolding steps_from
AreOpen-steps_from n s t steps [] l o = subst (λ s'. AreOpen s' steps) l o
AreOpen-steps_from n s t steps (h ∷ hs) l o =
    AreOpen-steps_from (n + 1) h.to_state t
      (add_option steps (step_for_transition h.from_state h.to_state)) hs l.3
      (open_transition h.from_state h.to_state steps l.2
        (subst (λ s'. AreOpen s' steps) (sym l.1) o))

-- The executor of a workflow with a valid history is ready: no step that is still to come counts as
-- completed.
pub make_executor-IsReady : (w : Engine) → IsLogged w → IsReady (make_executor w)
unfolding make_executor
make_executor-IsReady w l = record {
  is_logged = l;
  open_steps =
      AreOpen-steps_from 1 created w.current_state [] w.history l
        (refl, (refl, (refl, (refl, tt))));
}

bounded : (s : State) → remaining s < 5
bounded created = omega arith
bounded analyzing = omega arith
bounded generating = omega arith
bounded reviewing = omega arith
bounded _ = omega arith

-- From any workflow with a valid history that is not FAILED, and with the three handlers there,
-- whatever the handlers do, `execute_until_complete` ends within five rounds and raises nothing. Its
-- calls were at most as many as the state was away from COMPLETED; the executor ends in COMPLETED if
-- they all succeeded and in FAILED otherwise, and is ready to be restored.
pub execute_until_complete-Ends :
    (redact : String → String) (hs : Handlers) (w : Engine)
    → HasHandlers hs
    → IsLogged w
    → w.current_state ≢ failed
    → (x' : Executor) × (rs : List ExecutionResult) × (execute_until redact hs 5
          (make_executor w)
          []
        ≡ some (x', ok rs))
      × Ends (remaining w.current_state) x' rs
execute_until_complete-Ends redact hs w has l nf =
    unfold make_executor in
    execute_until-Total redact hs has 5 (make_executor w) [] (make_executor-IsReady w l) nf
      (bounded w.current_state)
