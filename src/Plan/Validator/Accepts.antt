-- ===== src/Plan/Validator/Accepts.antt =====
-- src/specflow/plan/validator.py: the checks of the validator on a compiled plan.
use specflow_agent.Prelude.{
  ℕ, ◌+◌, ◌≤◌, ◌<◌, ◌≡◌, refl, sym, ap, ◌∙◌, String, true, false, none, some, List, [], ◌∷◌, map,
  string_eq, contains, contains-append, ok, ◌&&◌, if◌then◌else◌, Bool-cases, All-map, All-append,
  arith, inl, inr, All,
}
use specflow_agent.Prelude.Multiset.{times, unique, contains-unique, contains-times, absent-times}
use specflow_agent.Agents.Models.{AgentDependency}
use specflow_agent.Plan.Models.{StructuralDelegationSpec, CompiledStructuralPlan}
use specflow_agent.Plan.Compiler.{agent_ids, compile}
use specflow_agent.Plan.Compiler.Links.{times-nil}
use specflow_agent.Plan.Compiler.Wiring.{depends}
use specflow_agent.Plan.Compiler.Indices.{total_times, stage_index, index-here, index-cases}
use specflow_agent.Plan.Compiler.Order.{compiled-same, compiled-once, compiled-Earlier}
use specflow_agent.Plan.Validator.{
  difference, concat, check_agent_set_identity, see_stage, see_stages,
  check_no_duplicate_across_stages, pairs_of, check_pairs, check_stages,
  check_no_intra_stage_dependencies, validate,
}

difference-empty :
    (xs ys : List String)
    → ((x : String) → contains xs x ≡ true → contains ys x ≡ true)
    → difference xs ys ≡ []
difference-empty [] ys h = refl
difference-empty (x ∷ xs) ys h =
    let here = h x (ground (arith, string_eq.beq_iff x x)) in
    ground (arith, here, difference-empty xs ys (λ y there. h y (ground (arith, there))))

concat-times :
    (ss : List (List String)) (x : String) → contains (concat ss) x ≡ true → 1 ≤ total_times x ss
unfolding total_times
concat-times [] x h = cc
concat-times (s ∷ ss) x h =
    ground (arith, contains-append s (concat ss) x, contains-times x s, concat-times ss x, h)

times-concat :
    (ss : List (List String)) (x : String) → 1 ≤ total_times x ss → contains (concat ss) x ≡ true
unfolding total_times
times-concat [] x h = absurd (omega (arith, h))
times-concat (s ∷ ss) x h =
    ground (arith, contains-append s (concat ss) x, absent-times x s, times-concat ss x, h)

see_stage-ok :
    (seen stage : List String)
    → ((x : String) → times x seen + times x stage ≤ 1)
    → (seen' : List String) × (see_stage seen stage ≡ ok seen')
      × ((x : String) → times x seen' ≡ times x seen + times x stage)
unfolding see_stage times
see_stage-ok seen [] h = (seen, refl, λ x. omega arith)
see_stage-ok seen (a ∷ stage) h =
    let new : contains seen a ≡ false =
      ground (arith, h a, contains-times a seen, string_eq.beq_iff a a) in
    let (seen', e, counted) = see_stage-ok (a ∷ seen) stage (λ x. ground (arith, h x)) in
    (seen', rw new e, λ x. ground (arith, counted x))

see_stages-ok :
    (seen : List String) (ss : List (List String))
    → ((x : String) → times x seen + total_times x ss ≤ 1)
    → (seen' : List String) × (see_stages seen ss ≡ ok seen')
unfolding see_stages total_times
see_stages-ok seen [] h = (seen, refl)
see_stages-ok seen (s ∷ ss) h =
    let (seen1, e, counted) = see_stage-ok seen s (λ x. omega (arith, h x)) in
    let (seen2, k) = see_stages-ok seen1 ss (λ x. omega (arith, h x, counted x)) in (seen2, rw e k)

-- No pair stands in one stage.
check_pairs-ok :
    (s : List String) (pairs : List (String × String))
    → All (λ p. (contains s p.0 && contains s p.1) ≡ false) pairs
    → check_pairs s pairs ≡ ok tt
unfolding check_pairs
check_pairs-ok s [] h = refl
check_pairs-ok s ((a, d) ∷ pairs) h = rw (h.0) (check_pairs-ok s pairs h.1)

apart :
    (s : List String) (ss : List (List String)) (a d : String) (i j : ℕ)
    → stage_index (s ∷ ss) d ≡ some i
    → stage_index (s ∷ ss) a ≡ some j
    → i < j
    → (contains s a && contains s d) ≡ false
apart s ss a d i j at_d at_a less = elim (Bool-cases (contains s a)) [
  | inl e ↦
      let zero_j : some j ≡ some 0 = sym at_a ∙ index-here s ss a e in
      absurd (ground (arith, zero_j))
  | inr e ↦ ground (arith, e)
]

-- No stage holds both ends of an edge.
abbrev AllApart : List (List String) → String × String → Type 0
AllApart ss p = All (λ s. (contains s p.0 && contains s p.1) ≡ false) ss

absent-AllApart :
    (ss : List (List String)) (a d : String) → total_times d ss ≡ 0 → AllApart ss (a, d)
unfolding total_times
absent-AllApart [] a d h = tt
absent-AllApart (s ∷ ss) a d h =
    (ground (arith, h, contains-times d s), absent-AllApart ss a d (omega (arith, h)))

later-AllApart :
    (ss : List (List String)) (a d : String) (i j : ℕ)
    → total_times d ss ≤ 1
    → stage_index ss d ≡ some i
    → stage_index ss a ≡ some j
    → i < j
    → AllApart ss (a, d)
unfolding total_times
later-AllApart [] a d i j once at_d at_a less = tt
later-AllApart (s ∷ ss) a d i j once at_d at_a less = (
  apart s ss a d i j at_d at_a less,
  elim (index-cases s ss d i at_d) [
    | inl e ↦ absent-AllApart ss a d (ground (arith, once, contains-times d s, e))
    | inr (e, (i', in_d, same_i)) ↦ elim (index-cases s ss a j at_a) [
      | inl k ↦
          let zero_j : some j ≡ some 0 = sym at_a ∙ index-here s ss a k in
          absurd (ground (arith, zero_j))
      | inr (k, (j', in_a, same_j)) ↦
          later-AllApart ss a d i' j' (omega (arith, once)) in_d in_a
            (omega (arith, less, same_i, same_j))
    ]
  ],
)

check_stages-ok :
    (ss : List (List String)) (pairs : List (String × String))
    → All (λ p. AllApart ss p) pairs
    → check_stages ss pairs ≡ ok tt
unfolding check_stages
check_stages-ok [] pairs h = refl
check_stages-ok (s ∷ ss) pairs h =
    rw
      (check_pairs-ok s pairs (
        All-map (λ p. AllApart (s ∷ ss) p) (λ p. (contains s p.0 && contains s p.1) ≡ false) pairs
          (λ p k. k.0) h))
      (check_stages-ok ss pairs
        (All-map (λ p. AllApart (s ∷ ss) p) (λ p. AllApart ss p) pairs (λ p k. k.1) h))

-- A property of every edge of the dependencies is one of every pair.
pairs-All :
    (P : String × String → Type 0) (ds : List AgentDependency)
    → ((a d : String) → depends ds a d ≡ true → P (a, d))
    → All P (pairs_of ds)
pairs-All P [] h = tt
pairs-All P (dep ∷ ds) h =
    All-append P (map (λ dep_id. (dep.agent_id, dep_id)) dep.depends_on) (pairs_of ds)
      (heads dep.depends_on (λ d here.
        h dep.agent_id d (ground (arith, here, string_eq.beq_iff dep.agent_id dep.agent_id))))
      (pairs-All P ds (λ a d edge. h a d (ground (arith, edge))))
  where
    heads :
        (ns : List String)
        → ((d : String) → contains ns d ≡ true → P (dep.agent_id, d))
        → All P (map (λ dep_id. (dep.agent_id, dep_id)) ns)
    heads [] k = tt
    heads (n ∷ ns) k = (
      k n (ground (arith, string_eq.beq_iff n n)),
      heads ns (λ d there. k d (ground (arith, there))),
    )

-- A plan whose stages hold its agents once, each behind its dependencies, is valid.
staged-Valid :
    (plan : CompiledStructuralPlan)
    → ((x : String)
        → total_times x plan.execution_stages
          ≡ (if contains (agent_ids plan.agents) x then 1 else 0))
    → ((a d : String)
        → depends plan.dependencies a d ≡ true
        → (i j : ℕ) × (stage_index plan.execution_stages d ≡ some i)
          × (stage_index plan.execution_stages a ≡ some j)
          × (i < j))
    → validate plan none ≡ ok tt
unfolding validate check_agent_set_identity check_no_duplicate_across_stages
    check_no_intra_stage_dependencies agent_ids
staged-Valid plan once earlier =
    let stages = plan.execution_stages in
    let plan_ids = unique (map (λ a. a.agent_id) plan.agents) in
    let stage_ids = unique (concat stages) in
    let (seen, not_repeated) = see_stages-ok [] stages (λ x. ground (arith, once x, times-nil x)) in
    let none_missing = difference-empty plan_ids stage_ids (λ x here.
      contains-unique (concat stages) x ∙ times-concat stages x (ground (arith, once x, here))) in
    let none_added = difference-empty stage_ids plan_ids (λ x here.
      ground
        (arith, once x, concat-times stages x (sym (contains-unique (concat stages) x) ∙ here))) in
    let none_inside = check_stages-ok stages (pairs_of plan.dependencies) (
      pairs-All (λ p. AllApart stages p) plan.dependencies
        (λ a d edge.
          let (i, j, at_d, at_a, less) = earlier a d edge in
          later-AllApart stages a d i j (ground (arith, once d)) at_d at_a less)) in
    rw none_missing (rw none_added (rw not_repeated (rw none_inside refl)))

module _ (structure_hash : StructuralDelegationSpec → List (List String) → String) where
  -- A plan that `compile` returns passes every structural check of the validator.
  pub compiled-Valid :
      (p : StructuralDelegationSpec) (plan : CompiledStructuralPlan)
      → compile structure_hash p ≡ some (ok plan)
      → validate plan none ≡ ok tt
  compiled-Valid p plan h =
      let (agents, dependencies) = compiled-same structure_hash p plan h in
      staged-Valid plan
        (λ x.
          compiled-once structure_hash p plan x h
          ∙ ap (λ known. if contains (agent_ids known) x then 1 else 0) (sym agents))
        (λ a d edge.
          compiled-Earlier structure_hash p plan a d h
            (ap (λ ds. depends ds a d) (sym dependencies) ∙ edge))
