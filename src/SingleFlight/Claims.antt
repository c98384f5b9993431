-- ===== src/SingleFlight/Claims.antt =====
-- src/specflow/single_flight.py: a claim, by an owner or a follower, and the invariant.
use specflow_agent.Prelude.{
  ℕ, suc, ◌<◌, ◌≡◌, refl, sym, ap, ◌∙◌, String, string_eq, true, false, none, some, List, ◌∷◌, ◌==◌,
  nat_eq, not, ◌&&◌, ◌||◌, if◌then◌else◌, All-map, All-zip, Bool-cases, inl, inr, ◌⊎◌, arith,
}
use specflow_agent.Prelude.Dict.{get, put, has, get-put}
use specflow_agent.SingleFlight.Flights.{new_flight_entry, Coordinator, Flight}
use specflow_agent.SingleFlight.Sky.{stands, Owned}

-- A new owner's entry.
abbrev pub opened : Coordinator → String → String → Coordinator
opened c key run_id = record {
  entries = put c.entries key c.next;
  cell = λ j. if c.next == j then new_flight_entry run_id else c.cell j;
  next = suc c.next;
}

abbrev pub owner_of : Coordinator → String → Flight
owner_of c key = record { key = key; place = c.next; owner = true }

looked :
    (c : Coordinator) (key j : String)
    → get c.entries key ≡ none
    → ((key == j) ≡ true)
        × (get (put c.entries key c.next) j ≡ some c.next)
        × (get c.entries j ≡ none)
      ⊎ ((key == j) ≡ false) × (get (put c.entries key c.next) j ≡ get c.entries j)
looked c key j absent = elim (Bool-cases (key == j)) [
  | inl e ↦ inl (
    e,
    get-put c.entries key j c.next ∙ rw e refl,
    sym (ap (get c.entries) ((string_eq.beq_iff key j).0 e)) ∙ absent,
  )
  | inr e ↦ inr (e, get-put c.entries key j c.next ∙ rw e refl)
]

pub opened-Owned :
    (c : Coordinator) (live : List Flight) (key run_id : String)
    → Owned c live
    → get c.entries key ≡ none
    → Owned (opened c key run_id) (owner_of c key ∷ live)
unfolding has
opened-Owned c live key run_id o absent = record {
  owners = λ k. ground (arith, o.owners k, looked c key k absent);
  resident = (
    ground (arith, looked c key key absent, string_eq.beq_iff key key),
    All-map (λ f. (f.owner && not (stands c f)) ≡ false)
        (λ f. (f.owner && not (stands (opened c key run_id) f)) ≡ false) live
        (λ f h. ground (arith, looked c key f.key absent, h)) o.resident,
  );
  finished = (
    ground (arith, looked c key key absent, string_eq.beq_iff key key),
    All-zip (λ f. (stands c f || (c.cell f.place).done) ≡ true) (λ f. f.place < c.next)
        (λ f. (stands (opened c key run_id) f || ((opened c key run_id).cell f.place).done) ≡ true)
        live (λ f h less. ground (arith, looked c key f.key absent, h, less)) o.finished o.below,
  );
  unfinished = λ k i h. ground (arith, looked c key k absent, o.unfinished k i, o.stored k i, h);
  stored = λ k i h. ground (arith, looked c key k absent, o.stored k i, h);
  below = (
    omega arith,
    All-map (λ f. f.place < c.next) (λ f. f.place < suc c.next) live (λ f h. omega (arith, h))
        o.below,
  );
  apart = λ j k i hj hk. apart_put j k i hj hk (looked c key j absent) (looked c key k absent);
}
  where
    Looked : String → Type 0
    Looked j =
        ((key == j) ≡ true)
          × (get (put c.entries key c.next) j ≡ some c.next)
          × (get c.entries j ≡ none)
        ⊎ ((key == j) ≡ false) × (get (put c.entries key c.next) j ≡ get c.entries j)

    apart_put :
        (j k : String) (i : ℕ)
        → get (put c.entries key c.next) j ≡ some i
        → get (put c.entries key c.next) k ≡ some i
        → Looked j
        → Looked k
        → j ≡ k
    apart_put j k i hj hk (inl (ej, pj, aj)) (inl (ek, pk, ak)) =
        sym ((string_eq.beq_iff key j).0 ej) ∙ (string_eq.beq_iff key k).0 ek
    apart_put j k i hj hk (inl (ej, pj, aj)) (inr (ek, pk)) =
        absurd (ground (arith, o.stored k i (sym pk ∙ hk), pj, hj))
    apart_put j k i hj hk (inr (ej, pj)) (inl (ek, pk, ak)) =
        absurd (ground (arith, o.stored j i (sym pj ∙ hj), pk, hk))
    apart_put j k i hj hk (inr (ej, pj)) (inr (ek, pk)) = o.apart j k i (sym pj ∙ hj) (sym pk ∙ hk)

-- A follower joins the entry of its key.
pub joined-Owned :
    (c : Coordinator) (live : List Flight) (key : String) (i : ℕ)
    → Owned c live
    → get c.entries key ≡ some i
    → Owned c (record { key = key; place = i; owner = false } ∷ live)
joined-Owned c live key i o here = record {
  owners = o.owners;
  resident = (refl, o.resident);
  finished = (rw here (ground arith), o.finished);
  unfinished = o.unfinished;
  stored = o.stored;
  below = (o.stored key i here, o.below);
  apart = o.apart;
}
