-- ===== src/Plan/Compiler/Acyclic.antt =====
-- src/specflow/plan/compiler.py: the loop over the queue on a graph without a cycle.
use specflow_agent.Prelude.{
  ℕ, zero, suc, ◌<◌, ◌≡◌, refl, String, true, List, [], ◌∷◌, ◌==◌, string_eq, contains, nat_eq,
  ◌&&◌, if◌then◌else◌, Bool-cases, arith, inl, inr,
}
use specflow_agent.Prelude.Multiset.{times, absent-times}
use specflow_agent.Plan.Compiler.Stages.{IsGraph, remaining}

none_remaining :
    (done ds : List String)
    → ((d : String) → contains ds d ≡ true → contains done d ≡ true)
    → remaining done ds ≡ 0
none_remaining done [] h = refl
none_remaining done (d ∷ ds) h =
    let here = h d (ground (arith, string_eq.beq_iff d d)) in
    ground (arith, here, none_remaining done ds (λ e there. h e (ground (arith, there))))

-- When a rank falls along every dependency, an end of the loop has processed every agent.
pub acyclic-all :
    (ids : List String) (deps rev : String → List String) (done : List String) (rank : String → ℕ)
    → IsGraph ids deps rev
    → ((x : String)
        → times x done ≡ (if contains ids x && remaining done (deps x) == 0 then 1 else 0))
    → ((x d : String) → contains (deps x) d ≡ true → rank d < rank x)
    → (k : ℕ) (x : String) → rank x < k
    → contains ids x ≡ true
    → contains done x ≡ true
acyclic-all ids deps rev done rank g total falls zero x small here = absurd (omega (arith, small))
acyclic-all ids deps rev done rank g total falls (suc k) x small here =
    let none_left = none_remaining done (deps x) (λ d edge.
      acyclic-all ids deps rev done rank g total falls k d (omega (arith, falls x d edge, small))
        ((g.known x d edge).1)) in
    elim (Bool-cases (contains done x)) [
      | inl e ↦ e
      | inr e ↦ ground (arith, total x, none_left, here, absent-times x done e)
    ]
