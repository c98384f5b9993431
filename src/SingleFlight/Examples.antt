-- ===== src/SingleFlight/Examples.antt =====
-- Runs of src/specflow/single_flight.py.
use specflow_agent.Prelude.{◌≡◌, refl, string_eq, Bool, true, false, none, some, List, [], ◌∷◌, ok}
use specflow_agent.SingleFlight.RunResult.{
  RunResult, make_result, with_audit, default_outcome, safe_code, is_safe_code, matches_rest,
  error_code_of,
}
use specflow_agent.SingleFlight.Flights.{
  Coordinator, new_flight_entry, complete, wait, release, flight_metadata, normal, cancelled,
  write_entry,
}
use specflow_agent.SingleFlight.Sky.{Event, arrive, deliver, depart, fly_all, clear_sky, Owned}
use specflow_agent.SingleFlight.Ownership.{fly_all-Owned, wait-complete, owner_at, follower_at}

abbrev result : RunResult
result = record {
  exit_code = 3;
  status = "failed_runtime";
  error = "A_B";
  degraded = false;
  artifact_directory = none;
  metadata = [];
}

result_made : make_result 3 (some "A_B") none none [] ≡ ok result
unfolding make_result default_outcome safe_code is_safe_code matches_rest
result_made = refl

abbrev everyone : Bool → Bool
everyone b = true

abbrev events : List Event
events =
    arrive "k" "r1" everyone
    ∷ arrive "k" "r2" everyone
    ∷ arrive "m" "r3" everyone
    ∷ deliver 2 result
    ∷ depart 2 normal
    ∷ arrive "k" "r4" everyone
    ∷ depart 0 cancelled
    ∷ []

fly_all-Owned_example : Owned (fly_all clear_sky events).coordinator (fly_all clear_sky events).live
fly_all-Owned_example = fly_all-Owned events

abbrev one_run : Coordinator
one_run = record { entries = ("k", 0) ∷ []; cell = λ i. new_flight_entry "r1"; next = 1 }

abbrev audited : RunResult
audited = record result { metadata = ("role", "owner") ∷ ("owner_run_id", "r1") ∷ [] }

abbrev one_run_done : Coordinator
one_run_done = write_entry one_run 0 (record (one_run.cell 0) { outcome = audited })

completes : complete (owner_at "k" 0) result one_run ≡ (one_run_done, ok audited)
unfolding complete with_audit make_result default_outcome safe_code is_safe_code matches_rest
    error_code_of flight_metadata
completes = refl

wait-complete_example :
    wait (follower_at "k" 0) true (release (owner_at "k" 0) one_run_done)
    ≡ with_audit audited (flight_metadata (follower_at "k" 0) one_run)
wait-complete_example = wait-complete "k" "k" 0 one_run one_run_done result audited completes
