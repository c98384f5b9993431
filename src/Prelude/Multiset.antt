-- ===== src/Prelude/Multiset.antt =====
-- How often an element stands in a list, sets as lists without repetition, and counting by lengths.
use Prim.Native.Nat.{ℕ, suc, ◌+◌, ◌≤◌}
use mathlib.Core.Path.{◌≡◌, refl, sym, subst}
use mathlib.Core.Bool.{true, false}
use mathlib.Core.List.{List, [], ◌∷◌, ◌++◌}
use native.Mathlib.Omega.{arith}
use mathlib.Core.Logic.{inl, inr}
use specflow_agent.Prelude.Tests.{ltb, Bool-cases, if◌then◌else◌}
use specflow_agent.Prelude.Lists.{length, count_if, count_if-append}
use specflow_agent.Prelude.Equality.{HasEq, ◌==◌, contains}

module _ {ℓ} {A : Type ℓ} ⦃e : HasEq A⦄ where
  unfoldable pub times : A → List A → ℕ
  times x xs = count_if (λ y. x == y) xs

  -- set(xs)
  unfoldable pub unique : List A → List A
  unique [] = []
  unique (x ∷ xs) = let rest = unique xs in if contains rest x then rest else x ∷ rest

  unfoldable pub remove : A → List A → List A
  remove x [] = []
  remove x (y ∷ ys) = let rest = remove x ys in if x == y then ys else y ∷ rest

  pub times-append : (x : A) (xs ys : List A) → times x (xs ++ ys) ≡ times x xs + times x ys
  unfolding times
  times-append x xs ys = count_if-append (λ y. x == y) xs ys

  pub contains-times : (x : A) (xs : List A) → (if contains xs x then 1 else 0) ≤ times x xs
  unfolding times
  contains-times x [] = omega arith
  contains-times x (y ∷ ys) = ground (arith, contains-times x ys)

  pub absent-times : (x : A) (xs : List A) → contains xs x ≡ false → times x xs ≡ 0
  unfolding times
  absent-times x [] h = refl
  absent-times x (y ∷ ys) h = ground (arith, absent-times x ys)

  pub contains-unique : (xs : List A) (x : A) → contains (unique xs) x ≡ contains xs x
  unfolding unique
  contains-unique [] x = refl
  contains-unique (y ∷ ys) x =
      ground (arith, contains-unique ys x, contains-unique ys y, e.beq_iff x y)

  pub times-unique : (x : A) (xs : List A) → times x (unique xs) ≡ (if contains xs x then 1 else 0)
  unfolding unique times
  times-unique x [] = refl
  times-unique x (y ∷ ys) =
      ground (arith, times-unique x ys, contains-unique ys x, contains-unique ys y, e.beq_iff x y)

  times-remove :
      (x z : A) (ys : List A)
      → contains ys x ≡ true
      → times z ys ≡ times z (remove x ys) + (if z == x then 1 else 0)
  unfolding times remove
  times-remove x z [] h = cc
  times-remove x z (y ∷ ys) h =
      ground (arith, times-remove x z ys, e.beq_iff x y, e.beq_iff z x, e.beq_iff z y)

  length-remove :
      (x : A) (ys : List A) → contains ys x ≡ true → length ys ≡ suc (length (remove x ys))
  unfolding remove
  length-remove x [] h = cc
  length-remove x (y ∷ ys) h = ground (arith, length-remove x ys)

  present : (x : A) (xs ys : List A) → times x (x ∷ xs) ≤ times x ys → contains ys x ≡ true
  unfolding times
  present x xs ys h = ground (arith, e.beq_iff x x, absent-times x ys)

  fewer :
      (x z : A) (xs ys : List A)
      → contains ys x ≡ true
      → times z (x ∷ xs) ≤ times z ys
      → times z xs ≤ times z (remove x ys)
  unfolding times
  fewer x z xs ys here h = ground (arith, h, times-remove x z ys here)

  one_more :
      (x z : A) (xs ys : List A)
      → times z xs ≤ times z ys
      → ltb (times x xs) (times x ys) ≡ true
      → times z (x ∷ xs) ≤ times z ys
  unfolding times
  one_more x z xs ys h more = elim (Bool-cases (z == x)) [
    | inl same ↦
        subst (λ y. times y (x ∷ xs) ≤ times y ys) (sym ((e.beq_iff z x).0 same))
          (ground (arith, e.beq_iff x x))
    | inr other ↦ ground (arith, h, other)
  ]

  -- A list that has each element at most as often as another is at most as long.
  pub times-length : (xs ys : List A) → ((z : A) → times z xs ≤ times z ys) → length xs ≤ length ys
  times-length [] ys h = omega arith
  times-length (x ∷ xs) ys h =
      let here = present x xs ys (h x) in
      omega (
        arith,
        length-remove x ys here,
        times-length xs (remove x ys) (λ z. fewer x z xs ys here (h z)),
      )

  -- When it is as long, it has each element as often.
  pub times-full :
      (xs ys : List A) (x : A)
      → ((z : A) → times z xs ≤ times z ys)
      → length ys ≤ length xs
      → times x ys ≤ times x xs
  times-full xs ys x h long = elim (Bool-cases (ltb (times x xs) (times x ys))) [
    | inl more ↦
        absurd (omega (arith, long, times-length (x ∷ xs) ys (λ z. one_more x z xs ys (h z) more)))
    | inr e ↦ ground (arith, e)
  ]
