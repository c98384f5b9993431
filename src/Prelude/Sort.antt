-- ===== src/Prelude/Sort.antt =====
-- Python's `sorted`, which is stable, as insertion from the right; and the order of texts, which goes
-- by code points.
use Prim.Native.Nat.{suc}
use Prim.Native.Char.{code}
use Prim.Native.String.{String}
use mathlib.Core.Path.{◌≡◌, refl}
use mathlib.Core.Bool.{Bool, true, false}
use mathlib.Core.List.{List, [], ◌∷◌}
use native.Mathlib.Omega.{arith}
use specflow_agent.Prelude.Tests.{ltb, if◌then◌else◌}
use specflow_agent.Prelude.Lists.{length, count_if}
use specflow_agent.Prelude.Equality.{HasEq, contains}

-- a <= b
unfoldable pub str_leb : String → String → Bool
str_leb String.[] t = true
str_leb (String.◌∷◌ c s) String.[] = false
str_leb (String.◌∷◌ c s) (String.◌∷◌ d t) =
    let rest = str_leb s t in
    if ltb (code c) (code d) then true else if ltb (code d) (code c) then false else rest

module _ {ℓ} {A : Type ℓ} where
  unfoldable pub insert_by : (A → A → Bool) → A → List A → List A
  insert_by le x [] = x ∷ []
  insert_by le x (y ∷ ys) = let rest = insert_by le x ys in if le x y then x ∷ y ∷ ys else y ∷ rest

  unfoldable pub sort_by : (A → A → Bool) → List A → List A
  unfolding insert_by
  sort_by le [] = []
  sort_by le (x ∷ xs) = insert_by le x (sort_by le xs)

  count_if-insert_by :
      (p : A → Bool) (le : A → A → Bool) (x : A) (xs : List A)
      → count_if p (insert_by le x xs) ≡ count_if p (x ∷ xs)
  unfolding insert_by
  count_if-insert_by p le x [] = refl
  count_if-insert_by p le x (y ∷ ys) = ground (arith, count_if-insert_by p le x ys)

  -- Sorting keeps every element, as often as it stood there.
  pub count_if-sort_by :
      (p : A → Bool) (le : A → A → Bool) (xs : List A) → count_if p (sort_by le xs) ≡ count_if p xs
  unfolding sort_by
  count_if-sort_by p le [] = refl
  count_if-sort_by p le (x ∷ xs) =
      ground (arith, count_if-insert_by p le x (sort_by le xs), count_if-sort_by p le xs)

  length-insert_by :
      (le : A → A → Bool) (x : A) (xs : List A) → length (insert_by le x xs) ≡ suc (length xs)
  unfolding insert_by
  length-insert_by le x [] = refl
  length-insert_by le x (y ∷ ys) = ground (arith, length-insert_by le x ys)

  pub length-sort_by : (le : A → A → Bool) (xs : List A) → length (sort_by le xs) ≡ length xs
  unfolding sort_by
  length-sort_by le [] = refl
  length-sort_by le (x ∷ xs) =
      ground (arith, length-insert_by le x (sort_by le xs), length-sort_by le xs)

module _ {ℓ} {A : Type ℓ} ⦃e : HasEq A⦄ where
  contains-insert_by :
      (le : A → A → Bool) (x a : A) (xs : List A)
      → contains (insert_by le x xs) a ≡ contains (x ∷ xs) a
  unfolding insert_by
  contains-insert_by le x a [] = refl
  contains-insert_by le x a (y ∷ ys) = ground (arith, contains-insert_by le x a ys)

  pub contains-sort_by :
      (le : A → A → Bool) (xs : List A) (a : A) → contains (sort_by le xs) a ≡ contains xs a
  unfolding sort_by
  contains-sort_by le [] a = refl
  contains-sort_by le (x ∷ xs) a =
      ground (arith, contains-insert_by le x a (sort_by le xs), contains-sort_by le xs a)
