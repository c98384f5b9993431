-- ===== src/Llm/Resilience/Table.antt =====
-- src/specflow/llm/resilience.py: the table of entries, as an entry is looked up or made.
use specflow_agent.Prelude.{
  ℕ, subst, length-map, count_if-le, zero, suc, ◌+◌, ◌≤◌, ◌<◌, ◌≡◌, refl, ◌≢◌, inl, inr, ap, true,
  false, Option, none, some, List, [], ◌∷◌, ◌==◌, nat_eq, ok, err, length, count_if, contains, All,
  All-zip, All-map, leb, Bool-cases, if_lem, arith,
}
use specflow_agent.Prelude.Dict.{
  Dict, get, put, del, keys, get-put, get-del, length-put-le, length-del-le, length-del-lt,
}
use specflow_agent.Llm.Resilience.{
  Settings, ResourceIdentity, resource_eq, Entry, Guard, new_entry, stop_iteration, Token, is_idle,
  idle_at, find_recyclable, first_unused, aliases, Located, install, add_entry, recycle, locate_new,
  located, locate, update,
}
use specflow_agent.Llm.Resilience.Calls.{at, probe_at, Fits, bool_to_ℕ}

-- The counts of every entry agree with the calls in flight, the entry of a call in flight stays
-- resident, and the table keeps to its capacity.
pub record Consistent (s : Settings) (g : Guard) (live : List Token) : Type 0 where
  pub fits : (i : ℕ) → Fits s (g.cell i) (count_if (at i) live) (count_if (probe_at i) live)
  pub resident : All (λ t. get g.entries t.key ≡ some t.place) live
  pub stored : (k : ResourceIdentity) (i : ℕ) → get g.entries k ≡ some i → i < g.next
  pub room : length g.entries ≤ s.max_entries

contains-count :
    (i : ℕ) (used : List ℕ)
    → count_if (λ a. leb (i + 1) a) used + bool_to_ℕ (contains used i)
      ≤ count_if (λ a. leb i a) used
contains-count i [] = omega arith
contains-count i (a ∷ used) = ground (arith, contains-count i used, nat_eq.beq_iff a i)

-- When none of n numbers is free, at least n are used.
first_unused-none :
    (n i : ℕ) (used : List ℕ) → first_unused n i used ≡ none → n ≤ count_if (λ a. leb i a) used
unfolding first_unused
first_unused-none zero i used h = omega arith
first_unused-none (suc n) i used h =
    ground (arith, first_unused-none n (i + 1) used, contains-count i used)

none_at :
    (i : ℕ) (live : List Token)
    → All (λ t. t.place < i) live
    → (count_if (at i) live ≡ 0) × (count_if (probe_at i) live ≡ 0)
none_at i [] h = (refl, refl)
none_at i (t ∷ live) h = let rest = none_at i live h.1 in ground (arith, h.0, rest)

count-All : (i : ℕ) (live : List Token) → count_if (at i) live ≡ 0 → All (λ t. t.place ≢ i) live
count-All i [] h = tt
count-All i (t ∷ live) h = (ground arith, count-All i live (ground arith))

find_recyclable-idle :
    (d : Dict ResourceIdentity ℕ) (cell : ℕ → Entry) (ks : List ResourceIdentity)
    (k : ResourceIdentity)
    → find_recyclable d cell ks ≡ some k
    → idle_at cell (get d k) ≡ true
unfolding find_recyclable
find_recyclable-idle d cell [] k h = cc
find_recyclable-idle d cell (j ∷ ks) k h = elim (Bool-cases (idle_at cell (get d j))) [
  | inl e ↦ ground (arith, e)
  | inr e ↦ find_recyclable-idle d cell ks k (ground (arith, e))
]

idle_at-cases :
    (cell : ℕ → Entry) (o : Option ℕ)
    → idle_at cell o ≡ true
    → (i : ℕ) × (o ≡ some i) × ((cell i).active_calls ≡ 0)
unfolding is_idle
idle_at-cases cell none h = cc
idle_at-cases cell (some i) h = (i, refl, ground arith)

-- Entries as they are after `locate`, and where the entry of the key is.
abbrev pub Found : Settings → ResourceIdentity → List Token → Located → Type 0
Found s key live (g, ok i) = Consistent s g live × (get g.entries key ≡ some i)
Found s key live (g, err r) = Consistent s g live × (r ≢ stop_iteration)

-- A property of every entry, after a write of one of them.
pub update-lem :
    (P : ℕ → Entry → Type 0) (cell : ℕ → Entry) (place : ℕ) (e : Entry)
    → P place e
    → ((i : ℕ) → (place == i) ≡ false → P i (cell i))
    → (i : ℕ) → P i (update cell place e i)
update-lem P cell place e he hcell i =
    if_lem (P i) (place == i) (λ same. subst (λ j. P j e) ((nat_eq.beq_iff place i).0 same) he)
      (λ other. hcell i other)

module _ (s : Settings) (key : ResourceIdentity) (live : List Token) where
  live_below : (g : Guard) → Consistent s g live → All (λ t. t.place < g.next) live
  live_below g c =
      All-map (λ t. get g.entries t.key ≡ some t.place) (λ t. t.place < g.next) live
        (λ t h. c.stored t.key t.place h) c.resident

  resident-put :
      (g : Guard) (k : ResourceIdentity) (i : ℕ)
      → get g.entries key ≡ none
      → get g.entries k ≡ some i
      → get (put g.entries key g.next) k ≡ some i
  resident-put g k i absent here = elim (Bool-cases (key == k)) [
    | inl e ↦ let moved = ap (get g.entries) ((resource_eq.beq_iff key k).0 e) in cc
    | inr e ↦ ground (arith, get-put g.entries key k g.next, e)
  ]

  install-Found :
      (g : Guard) (o : Option ℕ)
      → Consistent s g live
      → get g.entries key ≡ none
      → length g.entries < s.max_entries
      → o ≢ none
      → Found s key live (install g key o)
  install-Found g none c absent small present = absurd (present refl)
  install-Found g (some alias) c absent small present =
      let below = none_at g.next live (live_below g c) in
      (
        record {
          fits =
              update-lem (λ i e. Fits s e (count_if (at i) live) (count_if (probe_at i) live))
                g.cell g.next (new_entry alias) (ground (arith, below)) (λ i other. c.fits i);
          resident =
              All-map (λ t. get g.entries t.key ≡ some t.place)
                (λ t. get (put g.entries key g.next) t.key ≡ some t.place) live
                (λ t h. resident-put g t.key t.place absent h) c.resident;
          stored = λ k i h. ground (arith, get-put g.entries key k g.next, c.stored k i);
          room = omega (arith, length-put-le g.entries key g.next);
        },
        ground (arith, get-put g.entries key key g.next, resource_eq.beq_iff key key),
      )

  add_entry-Found :
      (g : Guard)
      → Consistent s g live
      → get g.entries key ≡ none
      → length g.entries < s.max_entries
      → Found s key live (add_entry s key g)
  unfolding add_entry
  add_entry-Found g c absent small =
      install-Found g (first_unused s.max_entries 1 (aliases g.entries g.cell)) c absent small (λ h.
        omega (
          arith,
          first_unused-none s.max_entries 1 (aliases g.entries g.cell) h,
          count_if-le (λ a. leb 1 a) (aliases g.entries g.cell),
          length-map (λ p. (g.cell p.1).alias) g.entries,
        ))

  resident-del :
      (g : Guard) (old k : ResourceIdentity) (i j : ℕ)
      → get g.entries old ≡ some i
      → j ≢ i
      → get g.entries k ≡ some j
      → get (del g.entries old) k ≡ some j
  resident-del g old k i j idle away here = elim (Bool-cases (old == k)) [
    | inl e ↦
        let moved = ap (get g.entries) ((resource_eq.beq_iff old k).0 e) in ground (arith, moved)
    | inr e ↦ ground (arith, get-del g.entries old k, e)
  ]

  recycle-Found :
      (g : Guard) (o : Option ResourceIdentity)
      → Consistent s g live
      → get g.entries key ≡ none
      → ((old : ResourceIdentity) → o ≡ some old → idle_at g.cell (get g.entries old) ≡ true)
      → Found s key live (recycle s key g o)
  recycle-Found g none c absent idle = (c, cc)
  recycle-Found g (some old) c absent idle =
      let (i, here, quiet) = idle_at-cases g.cell (get g.entries old) (idle old refl) in
      add_entry-Found (record g { entries = del g.entries old })
        (record {
          fits = c.fits;
          resident =
              All-zip (λ t. get g.entries t.key ≡ some t.place) (λ t. t.place ≢ i)
                (λ t. get (del g.entries old) t.key ≡ some t.place) live
                (λ t h away. resident-del g old t.key i t.place here away h) c.resident
                (count-All i live (ground (arith, (c.fits i).calls_counted, quiet)));
          stored = λ k j h. ground (arith, get-del g.entries old k, c.stored k j);
          room = omega (arith, length-del-le g.entries old, c.room);
        })
        (ground (arith, get-del g.entries old key, absent))
        (omega (arith, length-del-lt g.entries old i here, c.room))

  located-Found :
      (g : Guard) (o : Option ℕ)
      → Consistent s g live
      → get g.entries key ≡ o
      → Found s key live (located s key g o)
  unfolding locate_new
  located-Found g (some i) c h = (c, h)
  located-Found g none c h =
      if_lem (Found s key live) (leb s.max_entries (length g.entries))
        (λ full.
          recycle-Found g (find_recyclable g.entries g.cell (keys g.entries)) c h
            (λ old e. find_recyclable-idle g.entries g.cell (keys g.entries) old e))
        (λ space. add_entry-Found g c h (ground arith))

  pub locate-Found : (g : Guard) → Consistent s g live → Found s key live (locate s key g)
  unfolding locate
  locate-Found g c = located-Found g (get g.entries key) c refl
