-- ===== src/Executor/Completion.antt =====
-- src/specflow/executor/engine.py: the last steps of `execute_until_complete`.
use Prim.Native.String.{◌++◌ as text_append}
use specflow_agent.Prelude.{
  ◌≡◌, refl, inl, inr, String, true, false, some, [], ◌∷◌, ◌==◌, sym, subst, string_eq, contains,
  ok, err, arith, Option-cases,
}
use specflow_agent.Prelude.Dict.{get, put, is_some}
use specflow_agent.Workflow.{
  State, created, analyzing, generating, reviewing, completed, failed, state_eq, terminal_states,
  can_transition,
}
use specflow_agent.Workflow.History.{logged-IsLogged}
use specflow_agent.Executor.{
  Handlers, Outcome, returned, returned_other, raised, Raised, ExecutionContext, Executor, Step,
  step_for_state, next_state_for_step, add_step, context, start_workflow, conclude, execute_next,
  succeed, failed_result, fail,
}
use specflow_agent.Executor.Steps.{
  AreOpen, IsReady, next, Advances, open_after, HasHandlers, move_lem,
}

-- One call returned a result and advanced the executor.
abbrev pub Good : Executor → Step → Type 0
Good x (x', ok r) = Advances x x' r
Good x (x', err e) = ⊥

not_failed : (s : State) → can_transition s failed ≡ true → (s == failed) ≡ false
unfolding can_transition
not_failed s h = ground arith

module _ (redact : String → String) where
  fail-Good :
      (x : Executor) (p : String) (prev : State) (e : Raised)
      → IsReady x
      → prev ≡ x.workflow.current_state
      → can_transition x.workflow.current_state failed ≡ true
      → Good x (fail redact x p prev e)
  unfolding fail
  fail-Good x p prev e ready was legal = rw (not_failed x.workflow.current_state legal) (
      rw
        (move_lem x failed (text_append p " failed") (λ x'. x')
          (λ x'. failed_result redact x' p prev e) legal)
        (record {
          ready = record {
            is_logged =
                logged-IsLogged failed (text_append p " failed") x.workflow legal ready.is_logged;
            open_steps = tt;
          };
          was = was;
          reached = refl;
          reported = refl;
          recorded = refl;
        }))

  conclude-Good :
      (x : Executor) (p : String) (o : Outcome)
      → IsReady x
      → step_for_state x.workflow.current_state ≡ some p
      → (p == "start") ≡ false
      → next_state_for_step p ≡ some (next x.workflow.current_state)
      → can_transition x.workflow.current_state failed ≡ true
      → can_transition x.workflow.current_state (next x.workflow.current_state) ≡ true
      → Good x (conclude redact x p x.workflow.current_state o)
  unfolding conclude
  conclude-Good x p (raised e) ready step other n lf ln =
      fail-Good x p x.workflow.current_state e ready refl lf
  conclude-Good x p returned_other ready step other n lf ln =
      fail-Good x p x.workflow.current_state _ ready refl lf
  conclude-Good x p (returned result) ready step other n lf ln =
      let s = x.workflow.current_state in
      let x' : Executor = record x {
        completed_steps = add_step x.completed_steps p;
        step_results = put x.step_results p result;
      } in
      let reason = text_append p " succeeded" in
      rw (other, n)
        (rw (move_lem x' (next s) reason (λ x'. x') (λ x'. succeed x' p s result) ln) (record {
          ready = record {
            is_logged = logged-IsLogged (next s) reason x.workflow ln ready.is_logged;
            open_steps = open_after s x.completed_steps p step ready.open_steps;
          };
          was = refl;
          reached = refl;
          reported = refl;
          recorded = refl;
        }))

  start-Good :
      (x : Executor)
      → IsReady x
      → x.workflow.current_state ≡ created
      → Good x (start_workflow x "start")
  unfolding start_workflow can_transition
  start-Good x ready e =
      let legal : can_transition x.workflow.current_state analyzing ≡ true = rw e in
      rw
        (move_lem x analyzing "executor start"
          (λ x'. record x' { completed_steps = add_step x'.completed_steps "start" })
          (λ x'. succeed x' "start" created (record { metadata = ("state", "analyzing") ∷ [] }))
          legal)
        (record {
          ready = record {
            is_logged = logged-IsLogged analyzing "executor start" x.workflow legal ready.is_logged;
            open_steps =
                open_after created x.completed_steps "start" (unfold step_for_state in refl)
                  (subst (λ s. AreOpen s x.completed_steps) e ready.open_steps);
          };
          was = sym e;
          reached = rw e;
          reported = refl;
          recorded = refl;
        })

  module _ (hs : Handlers) where
    called :
        (x : Executor) (p : String) (h : ExecutionContext → Outcome)
        → let s = x.workflow.current_state in
          step_for_state s ≡ some p
          → (s == created) ≡ false
          → contains terminal_states s ≡ false
          → contains x.completed_steps p ≡ false
          → get hs p ≡ some h
          → execute_next redact hs x ≡ conclude redact x p s (h (context x))
    unfolding execute_next
    called x p h step late early fresh has = rw (early, step, fresh, late, has) refl

    started :
        (x : Executor)
        → x.workflow.current_state ≡ created
        → contains x.completed_steps "start" ≡ false
        → execute_next redact hs x ≡ start_workflow x "start"
    unfolding execute_next
    started x e fresh = rw e (rw fresh refl)

    handled-Good :
        (x : Executor) (p : String)
        → let s = x.workflow.current_state in
          IsReady x
          → step_for_state s ≡ some p
          → (s == created) ≡ false
          → contains terminal_states s ≡ false
          → contains x.completed_steps p ≡ false
          → is_some (get hs p) ≡ true
          → (p == "start") ≡ false
          → next_state_for_step p ≡ some (next s)
          → can_transition s failed ≡ true
          → can_transition s (next s) ≡ true
          → Good x (execute_next redact hs x)
    handled-Good x p ready step late early fresh has other n lf ln =
        elim (Option-cases (get hs p)) [
          | inl absent ↦ absurd (cc (has, absent))
          | inr (h, present) ↦
              rw (called x p h step late early fresh present)
                (conclude-Good x p (h (context x)) ready step other n lf ln)
        ]

    -- A ready executor in a state that is not terminal, with its handlers, gets a result.
    pub execute_next-Good :
        HasHandlers hs
        → (x : Executor) → IsReady x
        → contains terminal_states x.workflow.current_state ≡ false
        → Good x (execute_next redact hs x)
    unfolding step_for_state next_state_for_step can_transition
    execute_next-Good has x ready nt = go x.workflow.current_state refl
      where
        opened : {s : State} → x.workflow.current_state ≡ s → AreOpen s x.completed_steps
        opened e = subst (λ s. AreOpen s x.completed_steps) e ready.open_steps

        go : (s : State) → x.workflow.current_state ≡ s → Good x (execute_next redact hs x)
        go created e = rw (started x e (opened e).0) (start-Good x ready e)
        go analyzing e =
            handled-Good x "analyze" ready (rw e) (rw e) nt (opened e).0 has.0 refl (rw e) (rw e)
              (rw e)
        go generating e =
            handled-Good x "generate" ready (rw e) (rw e) nt (opened e).0 has.1 refl (rw e) (rw e)
              (rw e)
        go reviewing e =
            handled-Good x "review" ready (rw e) (rw e) nt (opened e).0 has.2 refl (rw e) (rw e)
              (rw e)
        go completed e = absurd (cc (nt, e))
        go failed e = absurd (cc (nt, e))
