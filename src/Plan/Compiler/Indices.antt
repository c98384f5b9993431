-- ===== src/Plan/Compiler/Indices.antt =====
-- src/specflow/plan/compiler.py: where an id stands in stages that respect the dependencies.
use specflow_agent.Prelude.{
  ℕ, subst, suc, ◌+◌, ◌≤◌, ◌<◌, ◌≡◌, refl, sym, ap, ◌∙◌, String, true, false, Option, none, some,
  List, [], ◌∷◌, map, ◌==◌, string_eq, nat_eq, contains, map_some, length, if◌then◌else◌,
  Bool-cases, arith, inl, inr, ◌⊎◌, All,
}
use specflow_agent.Prelude.Multiset.{times, absent-times, contains-times}
use specflow_agent.Prelude.Sort.{sort_by, str_leb, count_if-sort_by, contains-sort_by}
use specflow_agent.Plan.Compiler.{visited_count}
use specflow_agent.Plan.Compiler.Stages.{Layered, all_pushed, pushed, times-pushed, length-pushed}

-- How often an id stands in the stages.
unfoldable pub total_times : String → List (List String) → ℕ
total_times x [] = 0
total_times x (s ∷ ss) = times x s + total_times x ss

-- The first stage in which an id stands.
unfoldable pub stage_index : List (List String) → String → Option ℕ
stage_index [] x = none
stage_index (s ∷ ss) x = if contains s x then some 0 else map_some suc (stage_index ss x)

pub times-all_pushed :
    (x : String) (done : List String) (ss : List (List String))
    → times x (all_pushed done ss) ≡ times x done + total_times x ss
unfolding total_times
times-all_pushed x done [] = omega arith
times-all_pushed x done (s ∷ ss) =
    omega (arith, times-all_pushed x (pushed done s) ss, times-pushed x done s)

pub length-all_pushed :
    (done : List String) (ss : List (List String))
    → length (all_pushed done ss) ≡ length done + visited_count ss
unfolding visited_count
length-all_pushed done [] = omega arith
length-all_pushed done (s ∷ ss) =
    omega (arith, length-all_pushed (pushed done s) ss, length-pushed done s)

pub total_times-sort :
    (x : String) (ss : List (List String))
    → total_times x (map (sort_by str_leb) ss) ≡ total_times x ss
unfolding total_times times
total_times-sort x [] = refl
total_times-sort x (s ∷ ss) =
    omega (arith, total_times-sort x ss, count_if-sort_by (λ y. x == y) str_leb s)

pub stage_index-sort :
    (ss : List (List String)) (x : String)
    → stage_index (map (sort_by str_leb) ss) x ≡ stage_index ss x
unfolding stage_index
stage_index-sort [] x = refl
stage_index-sort (s ∷ ss) x = rw (contains-sort_by str_leb s x) (rw (stage_index-sort ss x) refl)

contains-pushed :
    (done s : List String) (d : String)
    → contains (pushed done s) d ≡ true
    → contains s d ≡ false
    → contains done d ≡ true
contains-pushed done [] d h absent = h
contains-pushed done (n ∷ s) d h absent =
    let rest = contains-pushed (n ∷ done) s d h (ground arith) in ground arith

member : (P : String → Type 0) (x : String) (s : List String) → All P s → contains s x ≡ true → P x
member P x [] all h = cc
member P x (y ∷ s) all h = elim (Bool-cases (x == y)) [
  | inl e ↦ subst P (sym ((string_eq.beq_iff x y).0 e)) all.0
  | inr e ↦ member P x s all.1 (ground arith)
]

pub index-here :
    (s : List String) (ss : List (List String)) (d : String)
    → contains s d ≡ true
    → stage_index (s ∷ ss) d ≡ some 0
unfolding stage_index
index-here s ss d h = rw h refl

pub index-later :
    (s : List String) (ss : List (List String)) (d : String) (i : ℕ)
    → contains s d ≡ false
    → stage_index ss d ≡ some i
    → stage_index (s ∷ ss) d ≡ some (suc i)
unfolding stage_index
index-later s ss d i h k = rw h (rw k refl)

map_some-cases :
    (o : Option ℕ) (j : ℕ) → map_some suc o ≡ some j → (i : ℕ) × (o ≡ some i) × (j ≡ suc i)
map_some-cases none j h = cc
map_some-cases (some i) j h = (i, refl, cc)

pub index-cases :
    (s : List String) (ss : List (List String)) (x : String) (j : ℕ)
    → stage_index (s ∷ ss) x ≡ some j
    → (contains s x ≡ true)
      ⊎ ((contains s x ≡ false) × ((i : ℕ) × (stage_index ss x ≡ some i) × (j ≡ suc i)))
unfolding stage_index
index-cases s ss x j h = elim (Bool-cases (contains s x)) [
  | inl e ↦ inl e
  | inr e ↦ inr (
    e,
    map_some-cases (stage_index ss x) j
        (ap (λ b. if b then some 0 else map_some suc (stage_index ss x)) (sym e) ∙ h),
  )
]

-- A dependency of an agent in a later stage stands in an earlier one, or was processed before.
pub Layered-index :
    (deps : String → List String) (done : List String) (ss : List (List String)) (x d : String)
    (j : ℕ)
    → Layered deps done ss
    → contains (deps x) d ≡ true
    → stage_index ss x ≡ some j
    → (contains done d ≡ true) ⊎ ((i : ℕ) × (stage_index ss d ≡ some i) × (i < j))
unfolding stage_index
Layered-index deps done [] x d j layered edge here = cc
Layered-index deps done (s ∷ ss) x d j layered edge here = elim (index-cases s ss x j here) [
  | inl e ↦ inl (
      member (λ d. contains done d ≡ true) d (deps x)
        (member (λ x. All (λ d. contains done d ≡ true) (deps x)) x s layered.0 e) edge)
  | inr (e, (j', there, same)) ↦ elim (Bool-cases (contains s d)) [
    | inl k ↦ inr (0, index-here s ss d k, omega (arith, same))
    | inr k ↦ elim (Layered-index deps (pushed done s) ss x d j' layered.1 edge there) [
      | inl old ↦ inl (contains-pushed done s d old k)
      | inr (i, at_i, less) ↦ inr (suc i, index-later s ss d i k at_i, omega (arith, less, same))
    ]
  ]
]

-- An id that stands in the stages has an index.
pub total_times-index :
    (ss : List (List String)) (x : String)
    → 1 ≤ total_times x ss
    → (j : ℕ) × (stage_index ss x ≡ some j)
unfolding total_times
total_times-index [] x h = absurd (omega (arith, h))
total_times-index (s ∷ ss) x h = elim (Bool-cases (contains s x)) [
  | inl e ↦ (0, index-here s ss x e)
  | inr e ↦
      let (j, k) = total_times-index ss x (omega (arith, h, absent-times x s e)) in
      (suc j, index-later s ss x j e k)
]

pub stage_index-absent :
    (ss : List (List String)) (x : String) → total_times x ss ≡ 0 → stage_index ss x ≡ none
unfolding stage_index total_times
stage_index-absent [] x h = refl
stage_index-absent (s ∷ ss) x h =
    let tail = stage_index-absent ss x (omega (arith, h)) in
    ground (arith, h, tail, contains-times x s)
