-- ===== src/Workflow.antt =====
-- src/specflow/workflow: the state machine of the single-agent workflow (models.py, transitions.py,
-- engine.py). An operation returns the new engine, or the error and no engine: every check stands
-- before the first write. Sequence numbers are natural numbers.
pub mod History
pub mod Restore
mod Examples
use specflow_agent.Prelude.{
  ℕ, zero, suc, ◌+◌, ◌≡◌, ◌↔◌, String, Bool, true, false, List, [], ◌∷◌, ◌++◌, HasEq, ◌==◌, nat_eq,
  contains, Result, ok, err, ◌>>=◌, ◌>>◌, raise_if, not, length, arith,
}
use specflow_agent.Prelude.Text.{strip}

-- WorkflowState
pub data State : Type 0 where
  created analyzing generating reviewing completed failed : State

abbrev pub state_index : State → ℕ
state_index created = 0
state_index analyzing = 1
state_index generating = 2
state_index reviewing = 3
state_index completed = 4
state_index failed = 5

pub state_index_iff : (a b : State) → ((state_index a == state_index b) ≡ true) ↔ (a ≡ b)
state_index_iff a b = ground arith

instance abbrev pub state_eq : HasEq State
state_eq = record { beq = λ a b. state_index a == state_index b; beq_iff = state_index_iff }

-- WorkflowError and WorkflowTransitionError, one constructor for each message
pub data Error : Type 0 where
  sequence_must_be_positive must_change_state : Error
  terminal_workflow illegal_transition : State → State → Error
  advanced_without_history not_contiguous wrong_order : Error
  illegal_history_transition : State → State → Error
  does_not_match_history : Error

pub record StateTransition : Type 0 where
  pub from_state : State
  pub to_state : State
  pub sequence : ℕ
  pub reason : String

-- StateTransition.__post_init__
unfoldable pub check_transition : StateTransition → Result Error (Unit {0})
check_transition t = do
  raise_if (t.sequence == 0) sequence_must_be_positive
  raise_if (t.from_state == t.to_state) must_change_state

pub record Snapshot : Type 0 where
  pub current_state : State
  pub history : List StateTransition

-- LEGAL_TRANSITIONS
unfoldable pub legal_transitions : State → List State
legal_transitions created = analyzing ∷ []
legal_transitions analyzing = generating ∷ failed ∷ []
legal_transitions generating = reviewing ∷ failed ∷ []
legal_transitions reviewing = completed ∷ failed ∷ []
legal_transitions completed = []
legal_transitions failed = []

-- TERMINAL_STATES
abbrev pub terminal_states : List State
terminal_states = completed ∷ failed ∷ []

unfoldable pub can_transition : State → State → Bool
unfolding legal_transitions
can_transition from_state to_state = contains (legal_transitions from_state) to_state

pub record Engine : Type 0 where
  pub current_state : State
  pub history : List StateTransition

-- The loop of `_validate_history`: it returns the last `expected_from`.
unfoldable pub validate_entries : ℕ → State → List StateTransition → Result Error State
validate_entries expected_sequence expected_from [] = ok expected_from
validate_entries expected_sequence expected_from (t ∷ ts) = do
  raise_if (not (t.sequence == expected_sequence)) not_contiguous
  raise_if (not (t.from_state == expected_from)) wrong_order
  raise_if (not (can_transition t.from_state t.to_state))
      (illegal_history_transition t.from_state t.to_state)
  validate_entries (expected_sequence + 1) t.to_state ts

-- WorkflowEngine._validate_history
unfoldable pub validate_history : State → List StateTransition → Result Error (Unit {0})
validate_history current_state [] =
    raise_if (not (current_state == created)) advanced_without_history
validate_history current_state (t ∷ ts) = do
  expected_from ← validate_entries 1 created (t ∷ ts)
  raise_if (not (current_state == expected_from)) does_not_match_history

-- WorkflowEngine.__init__
unfoldable pub make_engine : State → List StateTransition → Result Error Engine
unfolding validate_history
make_engine current_state history = do
  validate_history current_state history
  ok (record { current_state = current_state; history = history })

-- WorkflowEngine()
abbrev pub new_engine : Engine
new_engine = record { current_state = created; history = [] }

-- WorkflowEngine.restore
unfoldable pub restore : Snapshot → Result Error Engine
unfolding make_engine
restore s = make_engine s.current_state s.history

-- WorkflowEngine.snapshot
unfoldable pub snapshot : Engine → Snapshot
snapshot e = record { current_state = e.current_state; history = e.history }

-- WorkflowEngine.transition
unfoldable pub transition : State → String → Engine → Result Error Engine
unfolding check_transition
transition to_state reason e = do
  raise_if (contains terminal_states e.current_state) (terminal_workflow e.current_state to_state)
  raise_if (not (can_transition e.current_state to_state))
      (illegal_transition e.current_state to_state)
  let t : StateTransition = record {
    from_state = e.current_state;
    to_state = to_state;
    sequence = length e.history + 1;
    reason = strip reason;
  }
  check_transition t
  ok (record { current_state = to_state; history = e.history ++ t ∷ [] })
