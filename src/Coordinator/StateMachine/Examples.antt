-- ===== src/Coordinator/StateMachine/Examples.antt =====
-- Runs of src/specflow/coordinator/state_machine.py.
use specflow_agent.Prelude.{◌≡◌, refl, true, List, [], ◌∷◌, length, any}
use specflow_agent.Coordinator.StateMachine.{
  State, planning, analyzing, executing_specialists, synthesizing, reviewing, revising, completed,
  state_eq, Engine, new_engine,
}
use specflow_agent.Coordinator.StateMachine.Traces.{
  Request, feed, attempt, IsAudited, enters, feed-IsAudited, completed_visits,
}

abbrev to : State → Request
to s = record { to_state = s; reason = ""; timestamp = "t" }

-- One rejected review, one revision, an illegal request on the way, and a pass.
abbrev revised_run : List Request
revised_run =
    to planning
    ∷ to analyzing
    ∷ to executing_specialists
    ∷ to completed
    ∷ to synthesizing
    ∷ to reviewing
    ∷ to revising
    ∷ to synthesizing
    ∷ to reviewing
    ∷ to completed
    ∷ []

abbrev final : Engine
final = feed (new_engine 3) revised_run

revised_run_ends :
    (final.state ≡ completed) × (final.revision_count ≡ 1) × (length final.history ≡ 9)
unfolding feed attempt new_engine
revised_run_ends = (refl, refl, refl)

feed-IsAudited_example : IsAudited (feed (new_engine 3) revised_run)
feed-IsAudited_example = feed-IsAudited 3 revised_run

completed_visits_example : any (enters synthesizing) final.history ≡ true
completed_visits_example = completed_visits 3 revised_run synthesizing revised_run_ends.0 refl
