-- ===== src/Coordinator/StateMachine.antt =====
-- src/specflow/coordinator/state_machine.py. A method that mutates the engine returns the new
-- engine, or the exception and no engine: a rejected transition has written nothing. The ISO
-- timestamp of a history entry is an argument, the reading of the clock.
pub mod Traces
mod Examples
use specflow_agent.Prelude.{
  ℕ, suc, ◌+◌, ◌≡◌, ◌↔◌, String, Bool, true, false, List, [], ◌∷◌, ◌++◌, HasEq, ◌==◌, nat_eq,
  contains, Result, ok, err, leb, if◌then◌else◌, arith,
}

-- MultiAgentWorkflowState
pub data State : Type 0 where
  created planning analyzing executing_specialists synthesizing : State
  reviewing revising completed failed : State

abbrev pub state_index : State → ℕ
state_index created = 0
state_index planning = 1
state_index analyzing = 2
state_index executing_specialists = 3
state_index synthesizing = 4
state_index reviewing = 5
state_index revising = 6
state_index completed = 7
state_index failed = 8

pub state_index_iff : (a b : State) → ((state_index a == state_index b) ≡ true) ↔ (a ≡ b)
state_index_iff a b = ground arith

instance abbrev pub state_eq : HasEq State
state_eq = record { beq = λ a b. state_index a == state_index b; beq_iff = state_index_iff }

-- _LEGAL_TRANSITIONS
unfoldable pub legal_transitions : State → List State
legal_transitions created = planning ∷ []
legal_transitions planning = analyzing ∷ failed ∷ []
legal_transitions analyzing = executing_specialists ∷ failed ∷ []
legal_transitions executing_specialists = synthesizing ∷ failed ∷ []
legal_transitions synthesizing = reviewing ∷ failed ∷ []
legal_transitions reviewing = completed ∷ revising ∷ failed ∷ []
legal_transitions revising = synthesizing ∷ failed ∷ []
legal_transitions completed = []
legal_transitions failed = []

-- TransitionHistoryEntry
pub record HistoryEntry : Type 0 where
  pub from_state : State
  pub to_state : State
  pub reason : String
  pub timestamp : String

-- MultiAgentWorkflowEngine
pub record Engine : Type 0 where
  pub state : State
  pub revision_count : ℕ
  pub max_rounds : ℕ
  pub history : List HistoryEntry

-- MultiAgentWorkflowEngine.__init__
unfoldable pub new_engine : ℕ → Engine
new_engine max_revision_rounds = record {
  state = created;
  revision_count = 0;
  max_rounds = max_revision_rounds;
  history = [];
}

unfoldable pub revision_exhausted : Engine → Bool
revision_exhausted e = leb e.max_rounds e.revision_count

-- StateTransitionError, with the two states of its message
pub data TransitionError : Type 0 where
  illegal_transition : State → State → TransitionError

unfoldable pub transition : State → String → String → Engine → Result TransitionError Engine
unfolding legal_transitions
transition to_state reason timestamp e =
    if contains (legal_transitions e.state) to_state
    then ok (record e {
      state = to_state;
      revision_count = if to_state == revising then e.revision_count + 1 else e.revision_count;
      history =
          e.history
          ++ record {
            from_state = e.state;
            to_state = to_state;
            reason = reason;
            timestamp = timestamp;
          }
            ∷ [];
    })
    else err (illegal_transition e.state to_state)
