-- ===== src/Prelude/Picks.antt =====
-- The n-th element of a list, and the list without it.
use Prim.Native.Nat.{ℕ, zero, suc, ◌+◌}
use mathlib.Core.Path.{◌≡◌, subst}
use mathlib.Core.Bool.{Bool}
use mathlib.Core.Option.{Option, none, some}
use mathlib.Core.List.{List, [], ◌∷◌}
use native.Mathlib.Omega.{arith}
use specflow_agent.Prelude.Tests.{if◌then◌else◌}
use specflow_agent.Prelude.Lists.{count_if, All}

module _ {ℓ} {A : Type ℓ} where
  abbrev pub after_head : A → Option (A × List A) → Option (A × List A)
  after_head x none = none
  after_head x (some (y, ys)) = some (y, x ∷ ys)

  unfoldable pub pick : ℕ → List A → Option (A × List A)
  pick n [] = none
  pick zero (x ∷ xs) = some (x, xs)
  pick (suc n) (x ∷ xs) = after_head x (pick n xs)

  after_head-cases :
      (x y : A) (o : Option (A × List A)) (rest : List A)
      → after_head x o ≡ some (y, rest)
      → (ys : List A) × (o ≡ some (y, ys)) × (x ∷ ys ≡ rest)
  after_head-cases x y none rest h = cc
  after_head-cases x y (some (z, zs)) rest h = (zs, cc, cc)

  pub count_if-pick :
      (p : A → Bool) (n : ℕ) (xs rest : List A) (y : A)
      → pick n xs ≡ some (y, rest)
      → count_if p xs ≡ count_if p rest + (if p y then 1 else 0)
  unfolding pick
  count_if-pick p n [] rest y h = cc
  count_if-pick p zero (x ∷ xs) rest y h = ground arith
  count_if-pick p (suc n) (x ∷ xs) rest y h =
      let (ys, e, same) = after_head-cases x y (pick n xs) rest h in
      subst (λ r. count_if p (x ∷ xs) ≡ count_if p r + (if p y then 1 else 0)) same
        (ground (arith, count_if-pick p n xs ys y e))

module _ {ℓ κ} {A : Type ℓ} where
  pub pick-All :
      (P : A → Type κ) (n : ℕ) (xs rest : List A) (y : A)
      → pick n xs ≡ some (y, rest)
      → All P xs
      → P y × All P rest
  unfolding pick
  pick-All P n [] rest y h all = cc
  pick-All P zero (x ∷ xs) rest y h all =
      let same_y : x ≡ y = cc in
      let same : xs ≡ rest = cc in (subst P same_y all.0, subst (All P) same all.1)
  pick-All P (suc n) (x ∷ xs) rest y h all =
      let (ys, e, same) = after_head-cases x y (pick n xs) rest h in
      let both = pick-All P n xs ys y e all.1 in (both.0, subst (All P) same (all.0, both.1))
