-- ===== src/Workflow/Examples.antt =====
-- Runs of src/specflow/workflow/engine.py.
use specflow_agent.Prelude.{◌≡◌, refl, ◌↔◌, List, [], ◌∷◌, ok}
use specflow_agent.Workflow.{
  State, created, analyzing, generating, reviewing, completed, Engine, new_engine, Snapshot,
  restore, snapshot, transition, validate_entries, can_transition,
}
use specflow_agent.Workflow.History.{IsLogged}
use specflow_agent.Workflow.Restore.{
  Request, feed, replay, restore_iff, restore-snapshot, replay-restore,
}

abbrev to : State → Request
to s = record { to_state = s; reason = " done " }

-- One request is illegal, and is refused.
abbrev requests : List Request
requests = to analyzing ∷ to completed ∷ to generating ∷ to reviewing ∷ to completed ∷ []

abbrev final : Snapshot
final = record {
  current_state = generating;
  history =
      record { from_state = created; to_state = analyzing; sequence = 1; reason = "a" }
      ∷ record { from_state = analyzing; to_state = generating; sequence = 2; reason = "" }
      ∷ [];
}

abbrev restored : Engine
restored = record { current_state = final.current_state; history = final.history }

final_restores : restore final ≡ ok restored
unfolding restore validate_entries can_transition
final_restores = refl

requests_end : (feed new_engine requests).current_state ≡ completed
unfolding feed transition can_transition
requests_end = refl

restore-snapshot_example :
    restore (snapshot (feed new_engine requests)) ≡ ok (feed new_engine requests)
restore-snapshot_example = restore-snapshot requests

restore_iff_example :
    (restore final ≡ ok restored) ↔ ((snapshot restored ≡ final) × IsLogged restored)
restore_iff_example = restore_iff final restored

replay-restore_example : replay new_engine final.history ≡ ok restored
unfolding specflow_agent.Prelude.Text.strip
replay-restore_example = replay-restore final restored final_restores (refl, (refl, tt))
