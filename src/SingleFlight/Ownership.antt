-- ===== src/SingleFlight/Ownership.antt =====
-- src/specflow/single_flight.py: what holds after every interleaving of the flights.
use specflow_agent.Prelude.{
  ℕ, eq_refl, ◌≡◌, refl, sym, ap, ◌∙◌, subst, String, string_eq, Bool, true, false, Option, none,
  some, List, [], ◌∷◌, nat_eq, Result, ok, err, if_lem,
}
use specflow_agent.Prelude.Dict.{get, has}
use specflow_agent.Prelude.Picks.{pick}
use specflow_agent.SingleFlight.RunResult.{RunResult, FlightError, with_audit}
use specflow_agent.SingleFlight.Flights.{
  Coordinator, new_coordinator, Flight, write_entry, claim_at, claim, store_outcome, complete,
  flight_metadata, Ending, record_failure, release, leave, wait,
}
use specflow_agent.SingleFlight.Sky.{
  Sky, Event, arrive, deliver, depart, arrived, delivered, departed, fly, fly_all, clear_sky, Owned,
}
use specflow_agent.SingleFlight.Outcomes.{complete-Owned, failure-Owned}
use specflow_agent.SingleFlight.Claims.{opened-Owned, joined-Owned}
use specflow_agent.SingleFlight.Releases.{closed-Owned, follower-Owned}

claim-Owned :
    (sky : Sky) (key run_id : String) (admit : Bool → Bool) (o : Option ℕ)
    → Owned sky.coordinator sky.live
    → get sky.coordinator.entries key ≡ o
    → Owned
        (arrived sky (claim_at key run_id admit sky.coordinator o)).coordinator
        (arrived sky (claim_at key run_id admit sky.coordinator o)).live
claim-Owned sky key run_id admit none owned h =
    if_lem
      (λ (x : Coordinator × Option Flight). Owned (arrived sky x).coordinator (arrived sky x).live)
      (admit true) (λ e. opened-Owned sky.coordinator sky.live key run_id owned h) (λ e. owned)
claim-Owned sky key run_id admit (some i) owned h =
    if_lem
      (λ (x : Coordinator × Option Flight). Owned (arrived sky x).coordinator (arrived sky x).live)
      (admit false) (λ e. joined-Owned sky.coordinator sky.live key i owned h) (λ e. owned)

leave-Owned :
    (c : Coordinator) (live rest : List Flight) (f : Flight) (n : ℕ) (ending : Ending)
    → Owned c live
    → pick n live ≡ some (f, rest)
    → Owned (leave f ending c) rest
unfolding leave release
leave-Owned c live rest f n ending o picked =
    let o' = failure-Owned c live f ending o in
    if_lem (λ (x : Coordinator). Owned x rest) f.owner
      (λ e. closed-Owned (record_failure f ending c) live rest f n o' picked e)
      (λ e. follower-Owned (record_failure f ending c) live rest f n o' picked e)

departed-Owned :
    (sky : Sky) (ending : Ending) (n : ℕ) (o : Option (Flight × List Flight))
    → pick n sky.live ≡ o
    → Owned sky.coordinator sky.live
    → Owned (departed sky ending o).coordinator (departed sky ending o).live
departed-Owned sky ending n none h owned = owned
departed-Owned sky ending n (some (f, rest)) h owned =
    leave-Owned sky.coordinator sky.live rest f n ending owned h

delivered-Owned :
    (sky : Sky) (r : RunResult) (o : Option (Flight × List Flight))
    → Owned sky.coordinator sky.live
    → Owned (delivered sky r o).coordinator (delivered sky r o).live
delivered-Owned sky r none owned = owned
delivered-Owned sky r (some (f, rest)) owned = complete-Owned sky.coordinator sky.live f r owned

fly-Owned :
    (sky : Sky) (e : Event)
    → Owned sky.coordinator sky.live
    → Owned (fly sky e).coordinator (fly sky e).live
unfolding fly claim
fly-Owned sky (arrive key run_id admit) o =
    claim-Owned sky key run_id admit (get sky.coordinator.entries key) o refl
fly-Owned sky (deliver n r) o = delivered-Owned sky r (pick n sky.live) o
fly-Owned sky (depart n ending) o = departed-Owned sky ending n (pick n sky.live) refl o

clear-Owned : Owned clear_sky.coordinator clear_sky.live
unfolding new_coordinator get has
clear-Owned = record {
  owners = λ k. refl;
  resident = tt;
  finished = tt;
  unfinished = λ k i h. cc;
  stored = λ k i h. cc;
  below = tt;
  apart = λ j k i hj hk. cc;
}

fly_all-Owned_from :
    (sky : Sky) (es : List Event)
    → Owned sky.coordinator sky.live
    → Owned (fly_all sky es).coordinator (fly_all sky es).live
unfolding fly_all
fly_all-Owned_from sky [] o = o
fly_all-Owned_from sky (e ∷ es) o = fly_all-Owned_from (fly sky e) es (fly-Owned sky e o)

-- After any interleaving of claims, results and ends of flights, whatever the admissions say: a key
-- has exactly one live owner while it has an entry and none otherwise, an owner's entry is the one
-- that its key looks up, and the entry of each live flight is that one or finished.
pub fly_all-Owned :
    (es : List Event) → Owned (fly_all clear_sky es).coordinator (fly_all clear_sky es).live
fly_all-Owned es = fly_all-Owned_from clear_sky es clear-Owned

ok-inj : (x : Result FlightError RunResult) (a b : RunResult) → x ≡ ok a → x ≡ ok b → a ≡ b
ok-inj x a b h k = cc

store-ok :
    (f : Flight) (c c' : Coordinator) (x : Result FlightError RunResult) (r : RunResult)
    → store_outcome f c x ≡ (c', ok r)
    → c' ≡ write_entry c f.place (record (c.cell f.place) { outcome = r })
store-ok f c c' (err e) r h = cc
store-ok f c c' (ok r') r h =
    let same : r' ≡ r = ok-inj (ok r') r' r refl (ap (λ x. x.1) h) in
    ap (λ x. x.0) (sym h)
    ∙ ap (λ q. write_entry c f.place (record (c.cell f.place) { outcome = q })) same

-- The flight of an owner, and one of a follower, on an entry.
abbrev pub owner_at : String → ℕ → Flight
owner_at key i = record { key = key; place = i; owner = true }

abbrev pub follower_at : String → ℕ → Flight
follower_at key i = record { key = key; place = i; owner = false }

-- A follower that waits past the release of its owner gets the result that the owner completed with,
-- under its own metadata.
pub wait-complete :
    (key key' : String) (i : ℕ) (c c' : Coordinator) (result r : RunResult)
    → complete (owner_at key i) result c ≡ (c', ok r)
    → wait (follower_at key' i) true (release (owner_at key i) c')
      ≡ with_audit r (flight_metadata (follower_at key' i) c)
unfolding wait complete release flight_metadata
wait-complete key key' i c c' result r h =
    let f = owner_at key i in
    let same = store-ok f c c' (with_audit result (flight_metadata f c)) r h in
    subst
      (λ d.
        wait (follower_at key' i) true (release f d)
        ≡ with_audit r (flight_metadata (follower_at key' i) c))
      (sym same) (rw (eq_refl i) refl)
