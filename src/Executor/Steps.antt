-- ===== src/Executor/Steps.antt =====
-- src/specflow/executor/engine.py: one call of `execute_next`.
use specflow_agent.Prelude.{
  ◌≡◌, refl, inl, inr, String, true, false, some, List, [], ◌∷◌, ◌==◌, string_eq, contains, ok, All,
  arith, if◌then◌else◌, contains-snoc,
}
use specflow_agent.Prelude.Dict.{get, is_some}
use specflow_agent.Workflow.{
  State, created, analyzing, generating, reviewing, completed, failed, state_eq, can_transition,
}
use specflow_agent.Workflow.History.{IsLogged, logged, transition_cases}
use specflow_agent.Executor.{Handlers, ExecutionResult, Executor, step_for_state, add_step, move}

-- The steps that are still to come at a state.
abbrev pub pending : State → List String
pending created = "start" ∷ "analyze" ∷ "generate" ∷ "review" ∷ []
pending analyzing = "analyze" ∷ "generate" ∷ "review" ∷ []
pending generating = "generate" ∷ "review" ∷ []
pending reviewing = "review" ∷ []
pending _ = []

abbrev pub AreOpen : State → List String → Type 0
AreOpen s steps = All (λ p. contains steps p ≡ false) (pending s)

-- The workflow has a valid history, and no step that is to come counts as completed.
pub record IsReady (x : Executor) : Type 0 where
  pub is_logged : IsLogged x.workflow
  pub open_steps : AreOpen x.workflow.current_state x.completed_steps

abbrev pub next : State → State
next created = analyzing
next analyzing = generating
next generating = reviewing
next _ = completed

-- What one call does to a ready executor: it returns a result, and the executor is ready in the
-- next state, or in FAILED.
pub record Advances (x x' : Executor) (r : ExecutionResult) : Type 0 where
  pub ready : IsReady x'
  pub was : r.previous_state ≡ x.workflow.current_state
  pub reached :
      x'.workflow.current_state ≡ (if r.success then next x.workflow.current_state else failed)
  pub reported : r.current_state ≡ x'.workflow.current_state
  pub recorded : r.history ≡ x'.workflow.history

add_step_other :
    (steps : List String) (p q : String)
    → (q == p) ≡ false
    → contains steps q ≡ false
    → contains (add_step steps p) q ≡ false
unfolding add_step
add_step_other steps p q d h = ground (arith, contains-snoc steps q p)

-- The step of a state closes that step alone.
pub open_after :
    (s : State) (steps : List String) (p : String)
    → step_for_state s ≡ some p
    → AreOpen s steps
    → AreOpen (next s) (add_step steps p)
unfolding step_for_state
open_after created steps p e h =
    let e' : p ≡ "start" = cc in
    rw e' (
      add_step_other steps "start" "analyze" refl h.1.0,
      (
        add_step_other steps "start" "generate" refl h.1.1.0,
        (add_step_other steps "start" "review" refl h.1.1.1.0, tt),
      ),
    )
open_after analyzing steps p e h =
    let e' : p ≡ "analyze" = cc in
    rw e' (
      add_step_other steps "analyze" "generate" refl h.1.0,
      (add_step_other steps "analyze" "review" refl h.1.1.0, tt),
    )
open_after generating steps p e h =
    let e' : p ≡ "generate" = cc in rw e' (add_step_other steps "generate" "review" refl h.1.0, tt)
open_after _ steps p e h = tt

-- Every step but the first has a handler.
abbrev pub HasHandlers : Handlers → Type 0
HasHandlers hs =
    (is_some (get hs "analyze") ≡ true)
    × (is_some (get hs "generate") ≡ true)
    × (is_some (get hs "review") ≡ true)

-- The record of a transition of the workflow that is legal.
pub move_lem :
    (x : Executor) (to : State) (reason : String) (book : Executor → Executor)
    (report : Executor → ExecutionResult)
    → can_transition x.workflow.current_state to ≡ true
    → let x' = book (record x { workflow = logged to reason x.workflow }) in
      move x to reason book report ≡ (x', ok (report x'))
unfolding move
move_lem x to reason book report legal = elim (transition_cases to reason x.workflow) [
  | inl (_, same) ↦ rw same
  | inr (illegal, _) ↦ cc (legal, illegal)
]
