-- ===== src/Plan/Compiler/Order.antt =====
-- src/specflow/plan/compiler.py: what a compiled plan is, and when `compile` gives one.
use specflow_agent.Prelude.{
  ℕ, ◌≤◌, ◌<◌, ◌≡◌, sym, ap, ◌∙◌, String, true, some, List, [], map, ◌==◌, string_eq, nat_eq,
  contains, Result, ok, err, >>=-eq-ok, raise_if, raise_if-eq-ok, length, not, if◌then◌else◌, arith,
  inl, inr,
}
use specflow_agent.Prelude.Multiset.{times-full}
use specflow_agent.Prelude.Sort.{sort_by, str_leb}
use specflow_agent.Plan.Models.{
  PlanError, cycle_detected, StructuralDelegationSpec, CompiledStructuralPlan, check_compiled,
}
use specflow_agent.Plan.Compiler.{
  DepMap, agent_ids, deps_of, visited_count, assemble, plan_of, finish_plan, compile,
}
use specflow_agent.Plan.Compiler.Stages.{all_pushed}
use specflow_agent.Plan.Compiler.Links.{times-nil}
use specflow_agent.Plan.Compiler.Wiring.{depends}
use specflow_agent.Plan.Compiler.Compiled.{Laid, compile-cases}
use specflow_agent.Plan.Compiler.Indices.{
  total_times, stage_index, times-all_pushed, length-all_pushed, total_times-sort, stage_index-sort,
  Layered-index, total_times-index,
}

module _ (structure_hash : StructuralDelegationSpec → List (List String) → String) where
  -- `compile` ends on every plan: for its loop, one round more than there are agents is enough.
  pub compile-Total :
      (p : StructuralDelegationSpec)
      → (r : Result PlanError CompiledStructuralPlan) × (compile structure_hash p ≡ some r)
  compile-Total p = elim (compile-cases structure_hash p) [
    | inl (e, h, k) ↦ (err e, k)
    | inr (m, ss, laid, k) ↦ (finish_plan structure_hash p (agent_ids p.agents) ss, k)
  ]

  -- What `finish_plan` returns.
  finish-cases :
      (p : StructuralDelegationSpec) (ids : List String) (ss : List (List String))
      (plan : CompiledStructuralPlan)
      → finish_plan structure_hash p ids ss ≡ ok plan
      → (visited_count ss ≡ length ids)
        × (plan_of structure_hash p (map (sort_by str_leb) ss) ≡ plan)
  unfolding finish_plan
  finish-cases p ids ss plan h =
      let stages = map (sort_by str_leb) ss in
      let (u, all_visited, h1) =
        >>=-eq-ok (raise_if (not (visited_count ss == length ids)) cycle_detected)
          (λ _. assemble structure_hash p stages) h in
      let (v, checked, h2) =
        >>=-eq-ok (check_compiled (plan_of structure_hash p stages))
          (λ _. ok (plan_of structure_hash p stages)) h1 in
      let same : plan_of structure_hash p stages ≡ plan = cc in
      let visited =
        raise_if-eq-ok (not (visited_count ss == length ids)) cycle_detected all_visited in
      (ground (arith, visited), same)

  -- What lies behind a compiled plan.
  compiled-Laid :
      (p : StructuralDelegationSpec) (plan : CompiledStructuralPlan)
      → compile structure_hash p ≡ some (ok plan)
      → (m : DepMap) × (ss : List (List String)) × Laid p m ss
        × (visited_count ss ≡ length (agent_ids p.agents))
        × (plan.execution_stages ≡ map (sort_by str_leb) ss)
  compiled-Laid p plan h = elim (compile-cases structure_hash p) [
    | inl (e, c, k) ↦ cc
    | inr (m, ss, laid, k) ↦
        let finished = finish-cases p (agent_ids p.agents) ss plan cc in
        (m, ss, laid, finished.0, ap (λ q. q.execution_stages) (sym finished.1))
  ]

  -- A compiled plan keeps the agents and the dependencies.
  pub compiled-same :
      (p : StructuralDelegationSpec) (plan : CompiledStructuralPlan)
      → compile structure_hash p ≡ some (ok plan)
      → (plan.agents ≡ p.agents) × (plan.dependencies ≡ p.dependencies)
  compiled-same p plan h = elim (compile-cases structure_hash p) [
    | inl (e, c, k) ↦ cc
    | inr (m, ss, laid, k) ↦
        let finished = finish-cases p (agent_ids p.agents) ss plan cc in
        (ap (λ q. q.agents) (sym finished.1), ap (λ q. q.dependencies) (sym finished.1))
  ]

  covers :
      (p : StructuralDelegationSpec) (m : DepMap) (ss : List (List String)) (x : String)
      → Laid p m ss
      → visited_count ss ≡ length (agent_ids p.agents)
      → total_times x ss ≡ (if contains (agent_ids p.agents) x then 1 else 0)
  covers p m ss x laid full =
      let ids = agent_ids p.agents in
      ground (
        arith,
        times-full (all_pushed [] ss) ids x
            (λ z. ground (arith, laid.scheduled.total z, laid.graph.once z))
            (omega (arith, full, length-all_pushed [] ss)),
        laid.scheduled.total x,
        laid.graph.once x,
        times-all_pushed x [] ss,
        times-nil x,
      )

  -- Each agent of a compiled plan stands in its stages exactly once, and nothing else does.
  pub compiled-once :
      (p : StructuralDelegationSpec) (plan : CompiledStructuralPlan) (x : String)
      → compile structure_hash p ≡ some (ok plan)
      → total_times x plan.execution_stages ≡ (if contains (agent_ids p.agents) x then 1 else 0)
  compiled-once p plan x h =
      let (m, ss, laid, full, same) = compiled-Laid p plan h in
      ap (total_times x) same ∙ total_times-sort x ss ∙ covers p m ss x laid full

  pub compiled-at_most :
      (p : StructuralDelegationSpec) (plan : CompiledStructuralPlan) (x : String)
      → compile structure_hash p ≡ some (ok plan)
      → total_times x plan.execution_stages ≤ 1
  compiled-at_most p plan x h = ground (arith, compiled-once p plan x h)

  -- In a compiled plan, an agent's dependency runs in an earlier stage than the agent.
  pub compiled-Earlier :
      (p : StructuralDelegationSpec) (plan : CompiledStructuralPlan) (x d : String)
      → compile structure_hash p ≡ some (ok plan)
      → depends p.dependencies x d ≡ true
      → (i j : ℕ) × (stage_index plan.execution_stages d ≡ some i)
        × (stage_index plan.execution_stages x ≡ some j)
        × (i < j)
  compiled-Earlier p plan x d h edge =
      let (m, ss, laid, full, same) = compiled-Laid p plan h in
      let edge' = laid.edges x d ∙ edge in
      let (j, at_j) =
        total_times-index ss x
          (ground (arith, covers p m ss x laid full, laid.graph.known x d edge')) in
      elim (Layered-index (deps_of m) [] ss x d j laid.scheduled.layered edge' at_j) [
        | inl impossible ↦ cc
        | inr (i, at_i, less) ↦ (
          i,
          j,
          ap (λ ts. stage_index ts d) same ∙ stage_index-sort ss d ∙ at_i,
          ap (λ ts. stage_index ts x) same ∙ stage_index-sort ss x ∙ at_j,
          less,
        )
      ]
