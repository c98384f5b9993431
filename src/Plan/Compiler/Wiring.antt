-- ===== src/Plan/Compiler/Wiring.antt =====
-- src/specflow/plan/compiler.py: `dep_map` as a graph on the agents.
use specflow_agent.Prelude.{
  ap, if_lem, ◌∙◌, sym, subst, >>=-eq-ok, raise_if, raise_if-eq-ok, ◌>>◌, ◌+◌, ◌≤◌, ◌≡◌, refl,
  String, Bool, true, false, none, List, [], ◌∷◌, ◌==◌, string_eq, contains, ok, not, ◌&&◌, ◌||◌,
  any, if◌then◌else◌, Bool-cases, arith, inl, inr,
}
use specflow_agent.Prelude.Dict.{get, put, has, get-put}
use specflow_agent.Prelude.Multiset.{times, unique, times-unique, contains-unique}
use specflow_agent.Agents.Models.{AgentDependency}
use specflow_agent.Plan.Models.{duplicate_dependency, unknown_agent, unknown_dependency}
use specflow_agent.Plan.Compiler.Stages.{IsGraph}
use specflow_agent.Plan.Compiler.{
  DepMap, check_known, collect, set_defaults, deps_of, or_empty, reverse_deps,
}
use specflow_agent.Plan.Compiler.Links.{
  weight, times-link_all, weight-put, deps_of-put, times-nil, has-false,
}

-- The dict is right: it has each edge once, and only between agents.
pub record Wired (ids : List String) (m : DepMap) : Type 0 where
  pub weighed : (x n : String) → weight x n m ≡ times n (deps_of m x)
  pub simple : (x n : String) → times n (deps_of m x) ≤ 1
  pub known :
      (x n : String)
      → contains (deps_of m x) n ≡ true
      → (contains ids x ≡ true) × (contains ids n ≡ true)

-- That `n` is among the dependencies that a list of them gives `x`.
abbrev pub depends : List AgentDependency → String → String → Bool
depends ds x n = any (λ d. d.agent_id == x && contains d.depends_on n) ds

module _ (ids : List String) where
  weighed_put :
      (m : DepMap) (a : String) (ds : List String) (x n : String)
      → weight x n m ≡ times n (deps_of m x)
      → weight x n (put m a ds) ≡ weight x n m + (if x == a then times n ds else 0)
      → deps_of m a ≡ []
      → weight x n (put m a ds) ≡ times n (if a == x then ds else deps_of m x)
  unfolding times
  weighed_put m a ds x n old more none_yet = elim (Bool-cases (a == x)) [
    | inl e ↦
        let same = (string_eq.beq_iff a x).0 e in
        let empty = ap (λ y. times n (deps_of m y)) (sym same) ∙ ap (times n) none_yet in
        rw e (ground (arith, old, more, empty, same, string_eq.beq_iff x a))
    | inr e ↦ rw e (ground (arith, old, more, e, string_eq.beq_iff x a, string_eq.beq_iff a x))
  ]

  put-Wired :
      (m : DepMap) (a : String) (ds : List String)
      → Wired ids m
      → get m a ≡ none
      → ((n : String) → times n ds ≤ 1)
      → ((n : String) → contains ds n ≡ true → (contains ids a ≡ true) × (contains ids n ≡ true))
      → Wired ids (put m a ds)
  put-Wired m a ds w absent once known = record {
    weighed = λ x n.
        weighed_put m a ds x n (w.weighed x n) (weight-put m a ds x n absent) (ap or_empty absent)
        ∙ ap (times n) (sym (deps_of-put m a ds x));
    simple = λ x n.
        subst (λ es. times n es ≤ 1) (sym (deps_of-put m a ds x))
          (if_lem (λ es. times n es ≤ 1) (a == x) (λ e. once n) (λ e. w.simple x n));
    known = λ x n h. known_put x n (ap (λ es. contains es n) (sym (deps_of-put m a ds x)) ∙ h);
  }
    where
      known_put :
          (x n : String)
          → contains (if a == x then ds else deps_of m x) n ≡ true
          → (contains ids x ≡ true) × (contains ids n ≡ true)
      known_put x n h = elim (Bool-cases (a == x)) [
        | inl e ↦
            let both = known n (ap (λ b. contains (if b then ds else deps_of m x) n) (sym e) ∙ h) in
            (ap (contains ids) (sym ((string_eq.beq_iff a x).0 e)) ∙ both.0, both.1)
        | inr e ↦ w.known x n (ap (λ b. contains (if b then ds else deps_of m x) n) (sym e) ∙ h)
      ]

  check_known-ok :
      (a : String) (ds : List String)
      → check_known ids a ds ≡ ok tt
      → (n : String) → contains ds n ≡ true
      → contains ids n ≡ true
  unfolding check_known
  check_known-ok a [] h n here = cc
  check_known-ok a (d ∷ ds) h n here =
      let (u, passed, rest) =
        >>=-eq-ok (raise_if (not (contains ids d)) (unknown_dependency a d))
          (λ _. check_known ids a ds) h in
      let there = raise_if-eq-ok (not (contains ids d)) (unknown_dependency a d) passed in
      ground (arith, there, check_known-ok a ds rest n, string_eq.beq_iff n d)

  collect-cases :
      (seen : List String) (m m' : DepMap) (d : AgentDependency) (ds : List AgentDependency)
      → collect ids seen m (d ∷ ds) ≡ ok m'
      → (contains seen d.agent_id ≡ false)
        × (contains ids d.agent_id ≡ true)
        × (check_known ids d.agent_id d.depends_on ≡ ok tt)
        × (collect ids (d.agent_id ∷ seen) (put m d.agent_id (unique d.depends_on)) ds ≡ ok m')
  unfolding collect
  collect-cases seen m m' d ds h =
      let rest = collect ids (d.agent_id ∷ seen) (put m d.agent_id (unique d.depends_on)) ds in
      let known = check_known ids d.agent_id d.depends_on in
      let inside = raise_if (not (contains ids d.agent_id)) (unknown_agent d.agent_id) in
      let (u, first, h1) =
        >>=-eq-ok (raise_if (contains seen d.agent_id) (duplicate_dependency d.agent_id))
          (λ _. inside >> (known >> rest)) h in
      let (v, second, h2) = >>=-eq-ok inside (λ _. known >> rest) h1 in
      let (k, third, h3) = >>=-eq-ok known (λ _. rest) h2 in
      let there =
        raise_if-eq-ok (not (contains ids d.agent_id)) (unknown_agent d.agent_id) second in
      (
        raise_if-eq-ok (contains seen d.agent_id) (duplicate_dependency d.agent_id) first,
        ground (arith, there),
        third,
        h3,
      )

  unseen_put :
      (seen : List String) (m : DepMap) (d : AgentDependency) (a : String) (ds : List String)
      → ((b : String) → contains seen b ≡ false → get m b ≡ none)
      → contains (d.agent_id ∷ seen) a ≡ false
      → get (put m d.agent_id ds) a ≡ none
  unseen_put seen m d a ds unseen h = ground (
    arith,
    get-put m d.agent_id a ds,
    unseen a,
    string_eq.beq_iff d.agent_id a,
    string_eq.beq_iff a d.agent_id,
    h,
  )

  edges_put :
      (m : DepMap) (a : String) (ns : List String) (x n : String)
      → get m a ≡ none
      → contains (deps_of (put m a (unique ns)) x) n
        ≡ (contains (deps_of m x) n || (a == x && contains ns n))
  edges_put m a ns x n absent = elim (Bool-cases (a == x)) [
    | inl e ↦
        let empty =
          ap (λ y. contains (deps_of m y) n) (sym ((string_eq.beq_iff a x).0 e))
          ∙ ap (λ o. contains (or_empty o) n) absent in
        ap (λ es. contains es n) (deps_of-put m a (unique ns) x)
        ∙ rw e (ground (arith, empty, contains-unique ns n))
    | inr e ↦ ap (λ es. contains es n) (deps_of-put m a (unique ns) x) ∙ rw e (ground arith)
  ]

  pub collect-Wired :
      (seen : List String) (m m' : DepMap) (ds : List AgentDependency)
      → collect ids seen m ds ≡ ok m'
      → Wired ids m
      → ((a : String) → contains seen a ≡ false → get m a ≡ none)
      → Wired ids m'
        × ((x n : String)
            → contains (deps_of m' x) n ≡ (contains (deps_of m x) n || depends ds x n))
  unfolding collect
  collect-Wired seen m m' [] h w unseen =
      let same : m ≡ m' = cc in
      subst
        (λ k.
          Wired ids k
          × ((x n : String)
              → contains (deps_of k x) n ≡ (contains (deps_of m x) n || depends [] x n)))
        same (w, λ x n. ground arith)
  collect-Wired seen m m' (d ∷ ds) h w unseen =
      let (new, there, known, rest) = collect-cases seen m m' d ds h in
      let absent = unseen d.agent_id new in
      let m1 = put m d.agent_id (unique d.depends_on) in
      let w1 =
        put-Wired m d.agent_id (unique d.depends_on) w absent
          (λ n. ground (arith, times-unique n d.depends_on))
          (λ n here. (
            there,
            check_known-ok d.agent_id d.depends_on known n
                (sym (contains-unique d.depends_on n) ∙ here),
          )) in
      let (w', edges) =
        collect-Wired (d.agent_id ∷ seen) m1 m' ds rest w1
          (λ a unseen_a. unseen_put seen m d a (unique d.depends_on) unseen unseen_a) in
      (w', λ x n. edges x n ∙ ground (arith, edges_put m d.agent_id d.depends_on x n absent))

  still_empty :
      (m : DepMap) (a x : String)
      → get m a ≡ none
      → (if a == x then [] else deps_of m x) ≡ deps_of m x
  still_empty m a x absent = elim (Bool-cases (a == x)) [
    | inl e ↦ rw e (sym (ap or_empty absent) ∙ ap (deps_of m) ((string_eq.beq_iff a x).0 e))
    | inr e ↦ rw e refl
  ]

  pub defaults-Wired :
      (m : DepMap) (ns : List String)
      → Wired ids m
      → Wired ids (set_defaults m ns) × ((x : String) → deps_of (set_defaults m ns) x ≡ deps_of m x)
  unfolding set_defaults
  defaults-Wired m [] w = (w, λ x. refl)
  defaults-Wired m (a ∷ ns) w =
      if_lem (λ k. Wired ids k × ((x : String) → deps_of k x ≡ deps_of m x)) (has m a)
        (λ there. defaults-Wired m ns w)
        (λ missing.
          let absent = has-false m a missing in
          let (w', same) =
            defaults-Wired (put m a []) ns
              (put-Wired m a [] w absent (λ n. omega (arith, times-nil n)) (λ n here. cc)) in
          (w', λ x. same x ∙ deps_of-put m a [] x ∙ still_empty m a x absent))

  pub start-Wired : Wired ids []
  unfolding weight times get
  start-Wired = record { weighed = λ x n. refl; simple = λ x n. omega arith; known = λ x n h. cc }

  pub Wired-IsGraph :
      (m : DepMap)
      → ((x : String) → times x ids ≡ (if contains ids x then 1 else 0))
      → Wired ids m
      → IsGraph ids (deps_of m) (reverse_deps m)
  unfolding reverse_deps
  Wired-IsGraph m once w = record {
    once = once;
    edges = λ x n. omega (arith, times-link_all (λ a. []) m x n, times-nil x, w.weighed x n);
    simple = w.simple;
    known = w.known;
  }
