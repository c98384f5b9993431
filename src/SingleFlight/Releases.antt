-- ===== src/SingleFlight/Releases.antt =====
-- src/specflow/single_flight.py: the end of a flight and the invariant.
use specflow_agent.Prelude.{
  ℕ, ◌<◌, ◌≡◌, refl, sym, ap, ◌∙◌, String, string_eq, Bool, true, false, Option, none, some, List,
  [], ◌∷◌, ◌==◌, nat_eq, not, ◌&&◌, ◌||◌, count_if, All, All-map, All-zip, Bool-cases, inl, inr,
  ◌⊎◌, arith,
}
use specflow_agent.Prelude.Dict.{get, del, has, get-del}
use specflow_agent.Prelude.Picks.{pick, pick-All, count_if-pick}
use specflow_agent.SingleFlight.Flights.{Coordinator, Flight, write_entry}
use specflow_agent.SingleFlight.Sky.{owns, points_to, stands, Owned}

count-none-All :
    (p : Flight → Bool) (live : List Flight) → count_if p live ≡ 0 → All (λ f. p f ≡ false) live
count-none-All p [] h = tt
count-none-All p (f ∷ live) h = (ground arith, count-none-All p live (ground arith))

abbrev pub closed_by : Coordinator → Flight → Coordinator
closed_by c f = record (write_entry c f.place (record (c.cell f.place) { done = true })) {
  entries = del c.entries f.key;
}

-- What the table gives for a key, after the release of another flight's.
dropped :
    (c : Coordinator) (f : Flight) (k : String)
    → get c.entries f.key ≡ some f.place
    → ((f.key == k) ≡ true)
        × (get (del c.entries f.key) k ≡ none)
        × (get c.entries k ≡ some f.place)
      ⊎ ((f.key == k) ≡ false) × (get (del c.entries f.key) k ≡ get c.entries k)
dropped c f k here = elim (Bool-cases (f.key == k)) [
  | inl e ↦ inl (
    e,
    get-del c.entries f.key k ∙ rw e refl,
    sym (ap (get c.entries) ((string_eq.beq_iff f.key k).0 e)) ∙ here,
  )
  | inr e ↦ inr (e, get-del c.entries f.key k ∙ rw e refl)
]

pub closed-Owned :
    (c : Coordinator) (live rest : List Flight) (f : Flight) (n : ℕ)
    → Owned c live
    → pick n live ≡ some (f, rest)
    → f.owner ≡ true
    → Owned (closed_by c f) rest
unfolding has
closed-Owned c live rest f n o picked owner =
    let resident =
      pick-All (λ g. (g.owner && not (stands c g)) ≡ false) n live rest f picked o.resident in
    let finished =
      pick-All (λ g. (stands c g || (c.cell g.place).done) ≡ true) n live rest f picked
        o.finished in
    let below = pick-All (λ g. g.place < c.next) n live rest f picked o.below in
    let here : get c.entries f.key ≡ some f.place =
      at_home (get c.entries f.key) (ground (arith, resident.0, owner)) in
    let alone = count-none-All (owns f.key) rest (
      ground (
        arith,
        o.owners f.key,
        count_if-pick (owns f.key) n live rest f picked,
        here,
        owner,
        string_eq.beq_iff f.key f.key,
      )) in
    record {
      owners = λ k. ground (
        arith,
        o.owners k,
        count_if-pick (owns k) n live rest f picked,
        dropped c f k here,
        owner,
      );
      resident =
          All-zip (λ g. (g.owner && not (stands c g)) ≡ false) (λ g. owns f.key g ≡ false)
            (λ g. (g.owner && not (stands (closed_by c f) g)) ≡ false) rest
            (λ g h other. ground (
              arith,
              h,
              other,
              dropped c f g.key here,
              string_eq.beq_iff f.key g.key,
              string_eq.beq_iff g.key f.key,
            ))
            resident.1 alone;
      finished =
          All-map (λ g. (stands c g || (c.cell g.place).done) ≡ true)
            (λ g. (stands (closed_by c f) g || ((closed_by c f).cell g.place).done) ≡ true) rest
            (λ g h. ground (arith, h, dropped c f g.key here)) finished.1;
      unfinished = λ k i h. still_open k i h (dropped c f k here) here;
      stored = λ k i h. ground (arith, dropped c f k here, o.stored k i, h);
      below = below.1;
      apart = λ j k i hj hk.
          o.apart j k i (ground (arith, dropped c f j here, hj))
            (ground (arith, dropped c f k here, hk));
    }
  where
    at_home : (x : Option ℕ) → points_to x f.place ≡ true → x ≡ some f.place
    at_home none h = cc
    at_home (some i) h = ap some ((nat_eq.beq_iff i f.place).0 h)

    still_open :
        (k : String) (i : ℕ)
        → get (del c.entries f.key) k ≡ some i
        → ((f.key == k) ≡ true)
            × (get (del c.entries f.key) k ≡ none)
            × (get c.entries k ≡ some f.place)
          ⊎ ((f.key == k) ≡ false) × (get (del c.entries f.key) k ≡ get c.entries k)
        → get c.entries f.key ≡ some f.place
        → ((closed_by c f).cell i).done ≡ false
    still_open k i h (inl (e, gone, was)) here = cc
    still_open k i h (inr (e, same)) here = elim (Bool-cases (f.place == i)) [
      | inl p ↦
          let place = ap some ((nat_eq.beq_iff f.place i).0 p) in
          let equal = o.apart f.key k i (here ∙ place) (sym same ∙ h) in
          absurd (ground (arith, e, (string_eq.beq_iff f.key k).1 equal))
      | inr p ↦ rw p (o.unfinished k i (sym same ∙ h))
    ]

pub follower-Owned :
    (c : Coordinator) (live rest : List Flight) (f : Flight) (n : ℕ)
    → Owned c live
    → pick n live ≡ some (f, rest)
    → f.owner ≡ false
    → Owned c rest
follower-Owned c live rest f n o picked follower = record {
  owners = λ k. ground (arith, o.owners k, count_if-pick (owns k) n live rest f picked, follower);
  resident =
      (pick-All (λ g. (g.owner && not (stands c g)) ≡ false) n live rest f picked o.resident).1;
  finished =
      (pick-All (λ g. (stands c g || (c.cell g.place).done) ≡ true) n live rest f picked
        o.finished).1;
  unfinished = o.unfinished;
  stored = o.stored;
  below = (pick-All (λ g. g.place < c.next) n live rest f picked o.below).1;
  apart = o.apart;
}
