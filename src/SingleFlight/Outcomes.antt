-- ===== src/SingleFlight/Outcomes.antt =====
-- src/specflow/single_flight.py: the writes of an outcome and the invariant.
use specflow_agent.Prelude.{
  ℕ, ◌≡◌, refl, ap, ◌∙◌, string_eq, true, List, ◌==◌, nat_eq, Result, ok, err, ◌||◌, if◌then◌else◌,
  All-map, Bool-cases, if_lem, inl, inr,
}
use specflow_agent.SingleFlight.RunResult.{RunResult, FlightError, with_audit}
use specflow_agent.SingleFlight.Flights.{
  Coordinator, Flight, write_entry, store_outcome, complete, complete_raised, raised_result,
  flight_metadata, Ending, normal, failed, cancelled, record_failure,
}
use specflow_agent.SingleFlight.Sky.{stands, Owned}

done-kept :
    (c : Coordinator) (i j : ℕ) (r : RunResult)
    → (if i == j then record (c.cell i) { outcome = r } else c.cell j).done ≡ (c.cell j).done
done-kept c i j r = elim (Bool-cases (i == j)) [
  | inl e ↦ rw e (ap (λ k. (c.cell k).done) ((nat_eq.beq_iff i j).0 e))
  | inr e ↦ rw e refl
]

-- A write of an entry's outcome.
outcome-Owned :
    (c : Coordinator) (live : List Flight) (i : ℕ) (r : RunResult)
    → Owned c live
    → Owned (write_entry c i (record (c.cell i) { outcome = r })) live
outcome-Owned c live i r o = record {
  owners = o.owners;
  resident = o.resident;
  finished =
      All-map (λ f. (stands c f || (c.cell f.place).done) ≡ true)
        (λ f.
          (stands c f
            || (if i == f.place then record (c.cell i) { outcome = r } else c.cell f.place).done)
          ≡ true)
        live (λ f h. ap (λ b. stands c f || b) (done-kept c i f.place r) ∙ h) o.finished;
  unfinished = λ k j h. done-kept c i j r ∙ o.unfinished k j h;
  stored = o.stored;
  below = o.below;
  apart = o.apart;
}

pub complete-Owned :
    (c : Coordinator) (live : List Flight) (f : Flight) (r : RunResult)
    → Owned c live
    → Owned (complete f r c).0 live
unfolding complete
complete-Owned c live f r o =
    if_lem (λ (x : Coordinator × Result FlightError RunResult). Owned x.0 live) f.owner
      (λ e. stored_case (with_audit r (flight_metadata f c))) (λ e. o)
  where
    stored_case : (x : Result FlightError RunResult) → Owned (store_outcome f c x).0 live
    stored_case (err e) = o
    stored_case (ok r') = outcome-Owned c live f.place r' o

raised_case :
    (c : Coordinator) (live : List Flight) (f : Flight) (x : Result FlightError RunResult)
    → Owned c live
    → Owned (complete_raised f c x) live
raised_case c live f (err e) o = o
raised_case c live f (ok r) o = complete-Owned c live f r o

pub failure-Owned :
    (c : Coordinator) (live : List Flight) (f : Flight) (ending : Ending)
    → Owned c live
    → Owned (record_failure f ending c) live
unfolding record_failure
failure-Owned c live f normal o = o
failure-Owned c live f failed o =
    if_lem (λ x. Owned x live) f.owner (λ e. raised_case c live f (raised_result failed) o) (λ e. o)
failure-Owned c live f cancelled o =
    if_lem (λ x. Owned x live) f.owner (λ e. raised_case c live f (raised_result cancelled) o)
      (λ e. o)
