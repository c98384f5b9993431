-- ===== src/Llm/Resilience/Examples.antt =====
-- Runs of src/specflow/llm/resilience.py.
use specflow_agent.Prelude.{◌≡◌, refl, true, false, none, some, List, [], ◌∷◌, arith}
use specflow_agent.Prelude.Dict.{get}
use specflow_agent.Policy.Errors.{provider_timeout}
use specflow_agent.Llm.Resilience.{
  Settings, settings_are_valid, is_availability, ResourceIdentity, resource_eq, same_resource,
  Entry, new_entry, closed, open_,
}
use specflow_agent.Llm.Resilience.Calls.{System, Event, begin, end, run, start}
use specflow_agent.Llm.Resilience.Bounds.{Sound, run-Sound}
use specflow_agent.Llm.Resilience.Recovery.{entry_at, call, failing, probe-decides, failing-Opens}

abbrev settings : Settings
settings = record {
  failure_threshold = 2;
  open_seconds = 30;
  half_open_max_probes = 1;
  max_entries = 1;
}

abbrev east : ResourceIdentity
east = record {
  backend_resource_identity = "e0";
  effective_model = "m0";
  provider_tenancy_discriminator = "t0";
}

abbrev west : ResourceIdentity
west = record {
  backend_resource_identity = "f0";
  effective_model = "m0";
  provider_tenancy_discriminator = "t0";
}

abbrev events : List Event
events =
    begin east 1
    ∷ begin east 2
    ∷ end 1 false (some provider_timeout) 3
    ∷ end 0 true none 4
    ∷ begin west 5
    ∷ end 0 true none 6
    ∷ begin east 7
    ∷ []

run-Sound_example : Sound settings (run settings start events)
run-Sound_example = run-Sound settings events

abbrev one_entry : Entry → System
one_entry e = record {
  guard = record { entries = (east, 0) ∷ []; cell = λ i. e; next = 1 };
  live = [];
}

abbrev opened : Entry
opened = record (new_entry 1) { state = open_; opened_at = 10; consecutive_failures = 2 }

east_is_there : (e : Entry) → get (one_entry e).guard.entries east ≡ some 0
unfolding get same_resource
east_is_there e = refl

settings_hold : settings_are_valid settings ≡ true
unfolding settings_are_valid
settings_hold = refl

timeout_counts : is_availability provider_timeout ≡ true
unfolding is_availability
timeout_counts = refl

probe-decides_example :
    let e = entry_at (run settings (one_entry opened) (call east 40 41 true none)) 0 in
    (e.active_probes ≡ 0)
    × (e.active_calls ≡ 0)
    × (e.state ≡ closed)
    × (e.opened_at ≡ 10)
    × (e.consecutive_failures ≡ 0)
probe-decides_example =
    probe-decides settings east 0 40 41 true none (one_entry opened) settings_hold
      (east_is_there opened) refl (omega arith) refl

failing-Opens_example :
    (entry_at (run settings (one_entry (new_entry 1)) (failing 2 east 5 provider_timeout)) 0).state
    ≡ open_
failing-Opens_example =
    failing-Opens settings east 0 5 provider_timeout 1 (one_entry (new_entry 1)) timeout_counts
      (east_is_there (new_entry 1)) refl (omega arith)
