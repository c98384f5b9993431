-- ===== src/Plan/Compiler/Links.antt =====
-- src/specflow/plan/compiler.py: `dep_map` and the reverse edges that are built from it.
use specflow_agent.Prelude.{
  ℕ, ap, ◌∙◌, ◌+◌, ◌≡◌, refl, String, false, none, List, [], ◌∷◌, ◌++◌, ◌==◌, string_eq,
  if◌then◌else◌, Bool-cases, arith, inl, inr, count_if-append,
}
use specflow_agent.Prelude.Dict.{get, put, has, get-put}
use specflow_agent.Prelude.Multiset.{times}
use specflow_agent.Plan.Compiler.{DepMap, deps_of, or_empty, assign, link, link_all}

-- How often the loop over `dep_map` adds an id to the list of a node.
unfoldable pub weight : String → String → DepMap → ℕ
weight x n [] = 0
weight x n ((a, ds) ∷ m) = (if x == a then times n ds else 0) + weight x n m

times-link :
    (rev : String → List String) (a : String) (ds : List String) (x n : String)
    → times x (link rev a ds n) ≡ times x (rev n) + (if x == a then times n ds else 0)
unfolding link times
times-link rev a [] x n = ground arith
times-link rev a (d ∷ ds) x n = ground (
  arith,
  times-link (assign rev d (rev d ++ a ∷ [])) a ds x n,
  count_if-append (λ y. x == y) (rev n) (a ∷ []),
  string_eq.beq_iff d n,
  string_eq.beq_iff n d,
)

pub times-link_all :
    (rev : String → List String) (m : DepMap) (x n : String)
    → times x (link_all rev m n) ≡ times x (rev n) + weight x n m
unfolding link_all weight
times-link_all rev [] x n = omega arith
times-link_all rev ((a, ds) ∷ m) x n =
    omega (arith, times-link_all (link rev a ds) m x n, times-link rev a ds x n)

pub weight-put :
    (m : DepMap) (a : String) (ds : List String) (x n : String)
    → get m a ≡ none
    → weight x n (put m a ds) ≡ weight x n m + (if x == a then times n ds else 0)
unfolding weight put get
weight-put [] a ds x n h = omega arith
weight-put ((b, es) ∷ m) a ds x n h = ground (arith, weight-put m a ds x n, h)

pub deps_of-put :
    (m : DepMap) (a : String) (ds : List String) (x : String)
    → deps_of (put m a ds) x ≡ (if a == x then ds else deps_of m x)
deps_of-put m a ds x = elim (Bool-cases (a == x)) [
  | inl e ↦ ap or_empty (get-put m a x ds) ∙ rw e refl
  | inr e ↦ ap or_empty (get-put m a x ds) ∙ rw e refl
]

pub times-nil : (x : String) → times x [] ≡ 0
unfolding times
times-nil x = refl

pub has-false : (m : DepMap) (a : String) → has m a ≡ false → get m a ≡ none
unfolding has
has-false m a h = ground arith
