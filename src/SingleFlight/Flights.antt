-- ===== src/SingleFlight/Flights.antt =====
-- src/specflow/single_flight.py: `SingleFlightCoordinator` and `Flight`. An `_Entry` is shared by the
-- flights on a key, so entries stand in a store and the dict holds their places. The lock makes a claim
-- and a release atomic: threads are a list of events. An admission is a test on whether the claim is an
-- owner's; a callback that raises after the release of its slot changes no entry.
use specflow_agent.Prelude.{
  ℕ, suc, String, string_eq, Bool, true, false, Option, none, some, [], ◌∷◌, ◌==◌, nat_eq, Result,
  ok, err, if◌then◌else◌,
}
use specflow_agent.Prelude.Dict.{Dict, get, put, del}
use specflow_agent.SingleFlight.RunResult.{
  RunResult, FlightError, ownership_error, invalid_wait, make_result, with_audit,
}

-- _Entry
pub record FlightEntry : Type 0 where
  pub owner_run_id : String
  pub done : Bool
  pub outcome : RunResult

-- SingleFlightCoordinator, with the store of entries
pub record Coordinator : Type 0 where
  pub entries : Dict String ℕ
  pub cell : ℕ → FlightEntry
  pub next : ℕ

-- RunResult(3, error_code="RUNNER_FAILED")
abbrev pub initial_outcome : RunResult
initial_outcome = record {
  exit_code = 3;
  status = "failed_runtime";
  error = "RUNNER_FAILED";
  degraded = false;
  artifact_directory = none;
  metadata = [];
}

abbrev pub new_flight_entry : String → FlightEntry
new_flight_entry run_id = record { owner_run_id = run_id; done = false; outcome = initial_outcome }

unfoldable pub new_coordinator : Coordinator
new_coordinator = record { entries = []; cell = λ i. new_flight_entry ""; next = 0 }

-- Flight, with the key of what it was prepared for
pub record Flight : Type 0 where
  pub key : String
  pub place : ℕ
  pub owner : Bool

abbrev pub write_entry : Coordinator → ℕ → FlightEntry → Coordinator
write_entry c i e = record c { cell = λ j. if i == j then e else c.cell j }

abbrev pub claim_at :
    String → String → (Bool → Bool) → Coordinator → Option ℕ → Coordinator × Option Flight
claim_at key run_id admit c (some i) =
    if admit false then (c, some (record { key = key; place = i; owner = false })) else (c, none)
claim_at key run_id admit c none =
    if admit true
    then (
      record {
        entries = put c.entries key c.next;
        cell = λ j. if c.next == j then new_flight_entry run_id else c.cell j;
        next = suc c.next;
      },
      some (record { key = key; place = c.next; owner = true }),
    )
    else (c, none)

-- SingleFlightCoordinator.claim up to its `yield`; no flight when the admission raises
unfoldable pub claim : String → String → (Bool → Bool) → Coordinator → Coordinator × Option Flight
claim key run_id admit c = claim_at key run_id admit c (get c.entries key)

-- Flight.metadata
unfoldable pub flight_metadata : Flight → Coordinator → Dict String String
flight_metadata f c =
    ("role", if f.owner then "owner" else "follower")
    ∷ ("owner_run_id", (c.cell f.place).owner_run_id)
    ∷ []

abbrev pub store_outcome :
    Flight → Coordinator → Result FlightError RunResult → Coordinator × Result FlightError RunResult
store_outcome f c (err e) = (c, err e)
store_outcome f c (ok r) = (write_entry c f.place (record (c.cell f.place) { outcome = r }), ok r)

-- Flight.complete
unfoldable pub complete :
    Flight → RunResult → Coordinator → Coordinator × Result FlightError RunResult
complete f result c =
    if f.owner
    then store_outcome f c (with_audit result (flight_metadata f c))
    else (c, err ownership_error)

-- Flight.wait, once its time is over or its event is set; `valid` is the test of the timeout
unfoldable pub wait : Flight → Bool → Coordinator → Result FlightError RunResult
wait f valid c =
    if f.owner
    then err invalid_wait
    else if valid
    then (if (c.cell f.place).done
        then with_audit (c.cell f.place).outcome (flight_metadata f c)
        else make_result 3 (some "SINGLE_FLIGHT_WAIT_TIMEOUT") none none (flight_metadata f c))
    else err invalid_wait

-- How the block behind `yield` ends: normally, by an `Exception`, or by another `BaseException`.
pub data Ending : Type 0 where
  normal failed cancelled : Ending

-- The result of an owner whose block raised.
abbrev pub raised_result : Ending → Result FlightError RunResult
raised_result normal = ok initial_outcome
raised_result failed = make_result 3 (some "RUNNER_FAILED") none none []
raised_result cancelled = make_result 3 (some "RUN_CANCELLED") none (some "cancelled") []

abbrev pub complete_raised : Flight → Coordinator → Result FlightError RunResult → Coordinator
complete_raised f c (err e) = c
complete_raised f c (ok r) = (complete f r c).0

-- The `except` branch of `claim`.
unfoldable pub record_failure : Flight → Ending → Coordinator → Coordinator
record_failure f normal c = c
record_failure f failed c = if f.owner then complete_raised f c (raised_result failed) else c
record_failure f cancelled c = if f.owner then complete_raised f c (raised_result cancelled) else c

-- The `finally` branch of `claim`.
unfoldable pub release : Flight → Coordinator → Coordinator
release f c =
    if f.owner
    then record (write_entry c f.place (record (c.cell f.place) { done = true })) {
      entries = del c.entries f.key;
    }
    else c

-- SingleFlightCoordinator.claim from its `yield` on
unfoldable pub leave : Flight → Ending → Coordinator → Coordinator
leave f ending c = release f (record_failure f ending c)
