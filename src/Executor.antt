-- ===== src/Executor.antt =====
-- src/specflow/executor: it runs one handler for each workflow state and moves the state machine on.
-- A method returns the executor beside its result or exception, since what was written before a raise
-- stays written. A handler is a function from the execution context to what the call did. The text of
-- an error goes through `redact`, the regular expressions of `context._redact_secrets`.
pub mod Steps
pub mod Completion
pub mod Loop
mod Examples
use Prim.Native.String.{◌++◌ as text_append}
use Prim.Native.Char.{code}
use specflow_agent.Prelude.{
  ℕ, zero, suc, ◌+◌, ◌≡◌, String, Bool, true, false, Option, none, some, List, [], ◌∷◌, ◌++◌, ◌==◌,
  nat_eq, string_eq, contains, Result, ok, err, not, ◌||◌, ◌&&◌, leb, if◌then◌else◌,
}
use specflow_agent.Prelude.Dict.{Dict, get, put}
use specflow_agent.Prelude.Sort.{str_leb, sort_by}
use specflow_agent.Workflow.{
  State, created, analyzing, generating, reviewing, completed, failed, state_eq, Error,
  StateTransition, Engine, transition, terminal_states,
}

pub record StepResult : Type 0 where
  pub metadata : Dict String String

-- An exception that a handler raised.
pub record Raised : Type 0 where
  pub type_name : String
  pub message : String

-- What a call of a handler did.
pub data Outcome : Type 0 where
  returned : StepResult → Outcome
  returned_other : Outcome
  raised : Raised → Outcome

pub record ExecutionContext : Type 0 where
  pub current_state : State
  pub completed_steps : List String
  pub step_results : Dict String StepResult

abbrev pub Handlers : Type 0
Handlers = Dict String (ExecutionContext → Outcome)

pub data Status : Type 0 where
  success failure : Status

pub record ExecutionResult : Type 0 where
  pub status : Status
  pub executed_step : String
  pub previous_state : State
  pub current_state : State
  pub success : Bool
  pub metadata : Dict String String
  pub error : Option Raised
  pub history : List StateTransition

-- ExecutionError, and what else can leave `execute_next`
pub data ExecutionError : Type 0 where
  terminal_state cannot_start no_executable_step : State → ExecutionError
  already_executed missing_handler key_error : String → ExecutionError
  workflow_error : Error → ExecutionError

-- STEP_FOR_STATE
unfoldable pub step_for_state : State → Option String
step_for_state created = some "start"
step_for_state analyzing = some "analyze"
step_for_state generating = some "generate"
step_for_state reviewing = some "review"
step_for_state _ = none

-- NEXT_STATE_FOR_STEP
unfoldable pub next_state_for_step : String → Option State
next_state_for_step step =
    if step == "start"
    then some analyzing
    else if step == "analyze"
    then some generating
    else if step == "generate"
    then some reviewing
    else if step == "review"
    then some completed
    else none

-- STEP_FOR_TRANSITION
unfoldable pub step_for_transition : State → State → Option String
step_for_transition created analyzing = some "start"
step_for_transition analyzing generating = some "analyze"
step_for_transition generating reviewing = some "generate"
step_for_transition reviewing completed = some "review"
step_for_transition _ _ = none

-- steps.add(step), on a set
unfoldable pub add_step : List String → String → List String
add_step steps step = if contains steps step then steps else steps ++ step ∷ []

abbrev pub add_option : List String → Option String → List String
add_option steps none = steps
add_option steps (some step) = add_step steps step

-- The loop of `_completed_steps_from_history`.
unfoldable pub steps_from : List String → List StateTransition → List String
unfolding add_step
steps_from steps [] = steps
steps_from steps (t ∷ ts) =
    steps_from (add_option steps (step_for_transition t.from_state t.to_state)) ts

-- _completed_steps_from_history
abbrev pub completed_steps_from_history : List StateTransition → List String
completed_steps_from_history history = steps_from [] history

pub record Executor : Type 0 where
  pub workflow : Engine
  pub completed_steps : List String
  pub step_results : Dict String StepResult

-- AgentExecutor.__init__
unfoldable pub make_executor : Engine → Executor
unfolding steps_from
make_executor workflow = record {
  workflow = workflow;
  completed_steps = completed_steps_from_history workflow.history;
  step_results = [];
}

abbrev pub is_removed_control : ℕ → Bool
is_removed_control c = leb c 8 || (leb 11 c && leb c 12) || (leb 14 c && leb c 31)

-- context._strip_control: a line break or a tab becomes a space, "\r\n" one space, and the other
-- control characters are removed.
unfoldable pub strip_control_from : Bool → String → String
strip_control_from after_cr String.[] = String.[]
strip_control_from after_cr (String.◌∷◌ c s) =
    let skip = strip_control_from false s in
    let after = strip_control_from true s in
    if code c == 13
    then text_append " " after
    else if code c == 10
    then (if after_cr then skip else text_append " " skip)
    else if code c == 9
    then text_append " " skip
    else if is_removed_control (code c)
    then skip
    else String.◌∷◌ c skip

unfoldable pub strip_control : String → String
unfolding strip_control_from
strip_control s = strip_control_from false s

-- AgentExecutor._success
unfoldable pub succeed : Executor → String → State → StepResult → ExecutionResult
succeed x step previous_state result = record {
  status = Status.success;
  executed_step = step;
  previous_state = previous_state;
  current_state = x.workflow.current_state;
  success = true;
  metadata = sort_by (λ a b. str_leb a.0 b.0) result.metadata;
  error = none;
  history = x.workflow.history;
}

abbrev pub Step : Type 0
Step = Executor × Result ExecutionError ExecutionResult

abbrev pub moved :
    Executor → (Executor → Executor) → (Executor → ExecutionResult) → Result Error Engine → Step
moved x book report (err e) = (x, err (workflow_error e))
moved x book report (ok w) = let x' = book (record x { workflow = w }) in (x', ok (report x'))

-- `self._workflow.transition(…)`, then a write to the executor's own fields and the report.
unfoldable pub move :
    Executor → State → String → (Executor → Executor) → (Executor → ExecutionResult) → Step
move x to_state reason book report = moved x book report (transition to_state reason x.workflow)

abbrev pub next_move : Executor → String → State → StepResult → Option State → Step
next_move x step previous_state result none = (x, err (key_error step))
next_move x step previous_state result (some next) =
    move x next (text_append step " succeeded") (λ x'. x')
      (λ x'. succeed x' step previous_state result)

-- AgentExecutor._context
unfoldable pub context : Executor → ExecutionContext
context x = record {
  current_state = x.workflow.current_state;
  completed_steps = sort_by str_leb x.completed_steps;
  step_results = x.step_results;
}

-- The branch of `execute_next` for CREATED, which needs no handler.
unfoldable pub start_workflow : Executor → String → Step
unfolding succeed
start_workflow x step =
    move x analyzing "executor start"
      (λ x'. record x' { completed_steps = add_step x'.completed_steps step })
      (λ x'. succeed x' step created (record { metadata = ("state", "analyzing") ∷ [] }))

-- What the loop of `execute_until_complete` ends with. It has fuel for its rounds, and `none` means
-- that the fuel ran out.
abbrev pub Run : Type 0
Run = Option (Executor × Result ExecutionError (List ExecutionResult))

-- The loop behind one call: `break` at a result without success.
abbrev pub go_on : (Executor → List ExecutionResult → Run) → List ExecutionResult → Step → Run
go_on rest results (x, err e) = some (x, err e)
go_on rest results (x, ok r) = elim r.success [
  | true ↦ rest x (results ++ r ∷ [])
  | false ↦ some (x, ok (results ++ r ∷ []))
]

module _ (redact : String → String) where
  -- The result that `_fail` returns.
  unfoldable pub failed_result : Executor → String → State → Raised → ExecutionResult
  failed_result x step previous_state error = record {
    status = failure;
    executed_step = step;
    previous_state = previous_state;
    current_state = x.workflow.current_state;
    success = false;
    metadata = [];
    error =
        some
          (record { type_name = error.type_name; message = strip_control (redact error.message) });
    history = x.workflow.history;
  }

  -- AgentExecutor._fail
  unfoldable pub fail : Executor → String → State → Raised → Step
  unfolding failed_result
  fail x step previous_state error =
      if x.workflow.current_state == failed
      then (x, ok (failed_result x step previous_state error))
      else move x failed (text_append step " failed") (λ x'. x')
          (λ x'. failed_result x' step previous_state error)

  -- `execute_next` from the handler's outcome on.
  unfoldable pub conclude : Executor → String → State → Outcome → Step
  unfolding succeed
  conclude x step previous_state (raised error) = fail x step previous_state error
  conclude x step previous_state returned_other = fail x step previous_state (record {
    type_name = "ExecutionError";
    message = "StepHandler.execute must return StepResult";
  })
  conclude x step previous_state (returned result) =
      let x' = record x {
        completed_steps = add_step x.completed_steps step;
        step_results = put x.step_results step result;
      } in
      if step == "start"
      then (x', ok (succeed x' step created result))
      else next_move x' step previous_state result (next_state_for_step step)

  -- AgentExecutor._handler_for_step, and the call
  abbrev pub call_handler : Executor → String → State → Option (ExecutionContext → Outcome) → Step
  call_handler x step previous_state none = (x, err (missing_handler step))
  call_handler x step previous_state (some handler) =
      conclude x step previous_state (handler (context x))

  module _ (handlers : Handlers) where
    -- `execute_next` from the name of the step on
    abbrev pub execute_step : Executor → State → Option String → Step
    execute_step x previous_state none = (x, err (no_executable_step previous_state))
    execute_step x previous_state (some step) =
        if contains x.completed_steps step
        then (x, err (already_executed step))
        else if previous_state == created
        then start_workflow x step
        else call_handler x step previous_state (get handlers step)

    -- AgentExecutor.execute_next
    unfoldable pub execute_next : Executor → Step
    unfolding step_for_state
    execute_next x =
        let previous_state = x.workflow.current_state in
        if contains terminal_states previous_state
        then (x, err (terminal_state previous_state))
        else execute_step x previous_state (step_for_state previous_state)

    -- AgentExecutor.start
    unfoldable pub start : Executor → Step
    unfolding execute_next
    start x =
        if not (x.workflow.current_state == created)
        then (x, err (cannot_start x.workflow.current_state))
        else execute_next x

    -- AgentExecutor.execute_until_complete
    unfoldable pub execute_until : ℕ → Executor → List ExecutionResult → Run
    execute_until zero x results = none
    execute_until (suc fuel) x results =
        if contains terminal_states x.workflow.current_state
        then some (x, ok results)
        else go_on (execute_until fuel) results (execute_next x)
