-- ===== src/Coordinator/Planning/Tasks.antt =====
-- src/specflow/coordinator/coordinator.py: the tasks of a plan and their stages.
use specflow_agent.Prelude.{
  ℕ, suc, ◌+◌, ◌≤◌, ◌<◌, ◌≡◌, refl, subst, ap, sym, ◌∙◌, String, true, Option, none, some, List, [],
  ◌∷◌, map, ◌==◌, string_eq, contains, ok, ◌>>=◌, >>=-eq-ok, if◌then◌else◌, arith, Bool-cases, inl,
  inr, ◌⊎◌, All, All-map, Option-cases,
}
use specflow_agent.Prelude.Dict.{Dict, get, put, get-put}
use specflow_agent.Prelude.Multiset.{contains-times}
use specflow_agent.Agents.Models.{AgentIdentity, AgentDependency, AgentConstraints}
use specflow_agent.Plan.Models.{StructuralDelegationSpec, CompiledStructuralPlan}
use specflow_agent.Plan.Briefs.{SemanticTaskBrief, AgentTask}
use specflow_agent.Plan.Compiler.{compile, or_empty}
use specflow_agent.Plan.Compiler.Wiring.{depends}
use specflow_agent.Plan.Compiler.Order.{compiled-Earlier, compiled-same, compiled-at_most}
use specflow_agent.Plan.Compiler.Indices.{total_times, stage_index, stage_index-absent}
use specflow_agent.Plan.Enricher.{or_err}
use specflow_agent.Coordinator.Planning.{
  PlanningError, key_error, map_stage, map_stages, map_dependencies, map_constraints, task_of,
  build_task, build_tasks, brief_at, later_briefs, tasks_of,
}

get-map_stage :
    (idx : ℕ) (ids : List String) (m : Dict String ℕ) (x : String)
    → get (map_stage idx ids m) x ≡ (if contains ids x then some idx else get m x)
unfolding map_stage
get-map_stage idx [] m x = refl
get-map_stage idx (a ∷ ids) m x = ground (
  arith,
  get-map_stage idx ids (put m a idx) x,
  get-put m a x idx,
  string_eq.beq_iff a x,
  string_eq.beq_iff x a,
)

abbrev pub shifted : ℕ → Option ℕ → Option ℕ → Option ℕ
shifted k none old = old
shifted k (some i) old = some (k + i)

-- `stage_map` gives the stage of each agent that stands in one stage only.
pub get-map_stages :
    (k : ℕ) (ss : List (List String)) (m : Dict String ℕ) (x : String)
    → total_times x ss ≤ 1
    → get (map_stages k ss m) x ≡ shifted k (stage_index ss x) (get m x)
unfolding map_stages total_times stage_index
get-map_stages k [] m x once = refl
get-map_stages k (s ∷ ss) m x once =
    let rest = get-map_stages (suc k) ss (map_stage k s m) x (omega (arith, once)) in
    elim (Bool-cases (contains s x)) [
      | inl e ↦
          let alone = stage_index-absent ss x (ground (arith, once, e, contains-times x s)) in
          let at : some k ≡ some (k + 0) = ground arith in
          rw e (ground (arith, rest, get-map_stage k s m x, alone, e, at))
      | inr e ↦ elim (Option-cases (stage_index ss x)) [
        | inl out ↦ rw e (rw out (ground (arith, rest, get-map_stage k s m x, e, out)))
        | inr (i, at) ↦
            let next : suc k + i ≡ k + suc i = omega arith in
            rw e (
              rw at
                (rest ∙ ap (λ o. shifted (suc k) o (get (map_stage k s m) x)) at ∙ ap some next))
      ]
    ]

-- What `dep_map` gives an agent is among the dependencies.
pub map_dependencies-depends :
    (ds : List AgentDependency) (m : Dict String (List String)) (x n : String)
    → contains (or_empty (get (map_dependencies ds m) x)) n ≡ true
    → (depends ds x n ≡ true) ⊎ (contains (or_empty (get m x)) n ≡ true)
unfolding map_dependencies
map_dependencies-depends [] m x n h = inr h
map_dependencies-depends (d ∷ ds) m x n h =
    elim (map_dependencies-depends ds (put m d.agent_id d.depends_on) x n h) [
      | inl later ↦ inl (ground (arith, later))
      | inr here ↦ elim (Bool-cases (d.agent_id == x)) [
        | inl same ↦ inl (ground (arith, here, same, get-put m d.agent_id x d.depends_on))
        | inr other ↦ inr (ground (arith, here, other, get-put m d.agent_id x d.depends_on))
      ]
    ]

module _ (stage_map : Dict String ℕ) (dep_map : Dict String (List String))
    (constraints_map : Dict String AgentConstraints) where
  -- A task has the stage and the dependencies of the two dicts.
  abbrev pub IsMapped : AgentTask → Type 0
  IsMapped t =
      (get stage_map t.agent_id ≡ some t.stage) × (t.depends_on ≡ or_empty (get dep_map t.agent_id))

  or_err-ok :
      {A : Type 0} (e : PlanningError) (o : Option A) {a : A} → or_err e o ≡ ok a → o ≡ some a
  or_err-ok e none h = cc
  or_err-ok e (some a) h = cc

  build_task-IsMapped :
      (a : AgentIdentity) (bs : List SemanticTaskBrief) (t : AgentTask)
      → build_task stage_map dep_map constraints_map a bs ≡ ok t
      → IsMapped t × (t.agent_id ≡ a.agent_id)
  unfolding build_task
  build_task-IsMapped a bs t h =
      let deps = or_empty (get dep_map a.agent_id) in
      let missing = key_error a.agent_id in
      let (stage, staged, h1) =
        >>=-eq-ok (or_err missing (get stage_map a.agent_id))
          (λ (stage : ℕ).
            or_err missing (get constraints_map a.agent_id) >>= λ (constraints : AgentConstraints).
            brief_at bs >>= λ brief. ok (task_of a stage deps constraints brief))
          h in
      let (constraints, limited, h2) =
        >>=-eq-ok (or_err missing (get constraints_map a.agent_id))
          (λ (constraints : AgentConstraints).
            brief_at bs >>= λ brief. ok (task_of a stage deps constraints brief))
          h1 in
      let (brief, found, h3) =
        >>=-eq-ok (brief_at bs) (λ brief. ok (task_of a stage deps constraints brief)) h2 in
      let same : task_of a stage deps constraints brief ≡ t = cc in
      subst (λ t. IsMapped t × (t.agent_id ≡ a.agent_id)) same
        ((or_err-ok missing (get stage_map a.agent_id) staged, refl), refl)

  build_tasks-IsMapped :
      (agents : List AgentIdentity) (bs : List SemanticTaskBrief) (ts : List AgentTask)
      → build_tasks stage_map dep_map constraints_map agents bs ≡ ok ts
      → All IsMapped ts × (map (λ t. t.agent_id) ts ≡ map (λ a. a.agent_id) agents)
  unfolding build_tasks
  build_tasks-IsMapped [] bs ts h =
      let same : [] ≡ ts = cc in
      subst (λ ts. All IsMapped ts × (map (λ t. t.agent_id) ts ≡ [])) same (tt, refl)
  build_tasks-IsMapped (a ∷ agents) bs ts h =
      let (t, built, h1) =
        >>=-eq-ok (build_task stage_map dep_map constraints_map a bs)
          (λ t. build_tasks stage_map dep_map constraints_map agents (later_briefs bs) >>= λ tasks.
            ok (t ∷ tasks))
          h in
      let (rest, later, h2) =
        >>=-eq-ok (build_tasks stage_map dep_map constraints_map agents (later_briefs bs))
          (λ tasks. ok (t ∷ tasks)) h1 in
      let same : t ∷ rest ≡ ts = cc in
      let (mapped, named) = build_task-IsMapped a bs t built in
      let (all, names) = build_tasks-IsMapped agents (later_briefs bs) rest later in
      subst
        (λ ts. All IsMapped ts × (map (λ t. t.agent_id) ts ≡ map (λ a. a.agent_id) (a ∷ agents)))
        same ((mapped, all), rw named (rw names refl))

staged :
    (stages : List (List String)) (x : String) (i : ℕ)
    → total_times x stages ≤ 1
    → get (map_stages 0 stages []) x ≡ some i
    → stage_index stages x ≡ some i
unfolding get
staged stages x i once at =
    let e = sym (get-map_stages 0 stages [] x once) ∙ at in
    elim (Option-cases (stage_index stages x)) [
      | inl out ↦ ground (arith, e, out)
      | inr (j, at_j) ↦
          let e' : some (0 + j) ≡ some i = sym (ap (λ o. shifted 0 o none) at_j) ∙ e in
          let same : 0 + j ≡ i = cc in at_j ∙ ap some (omega (arith, same))
    ]

depends_of :
    (ds : List AgentDependency) (x n : String)
    → contains (or_empty (get (map_dependencies ds []) x)) n ≡ true
    → depends ds x n ≡ true
unfolding get
depends_of ds x n h = elim (map_dependencies-depends ds [] x n h) [
  | inl edge ↦ edge
  | inr nothing ↦ cc
]

-- A task stands in its stage, behind the agents that it depends on.
abbrev pub IsPlaced : List (List String) → AgentTask → Type 0
IsPlaced stages t =
    (stage_index stages t.agent_id ≡ some t.stage)
    × ((d : String)
        → contains t.depends_on d ≡ true
        → (i : ℕ) × (stage_index stages d ≡ some i) × (i < t.stage))

-- The tasks of a compiled plan.
pub tasks_of-IsPlaced :
    (structure_hash : StructuralDelegationSpec → List (List String) → String)
    (spec : StructuralDelegationSpec) (compiled : CompiledStructuralPlan)
    (briefs : List SemanticTaskBrief) (ts : List AgentTask)
    → compile structure_hash spec ≡ some (ok compiled)
    → tasks_of compiled briefs ≡ ok ts
    → All (IsPlaced compiled.execution_stages) ts
      × (map (λ t. t.agent_id) ts ≡ map (λ a. a.agent_id) spec.agents)
unfolding tasks_of
tasks_of-IsPlaced structure_hash spec compiled briefs ts h built =
    let stages = compiled.execution_stages in
    let stage_map = map_stages 0 stages [] in
    let dep_map = map_dependencies compiled.dependencies [] in
    let constraints_map = map_constraints compiled.constraints [] in
    let (agents, dependencies) = compiled-same structure_hash spec compiled h in
    let (mapped, names) =
      build_tasks-IsMapped stage_map dep_map constraints_map compiled.agents briefs ts built in
    let in_stage = λ (t : AgentTask) (m : IsMapped stage_map dep_map constraints_map t).
      staged stages t.agent_id t.stage (compiled-at_most structure_hash spec compiled t.agent_id h)
        m.0 in
    (
      All-map (IsMapped stage_map dep_map constraints_map) (IsPlaced stages) ts
          (λ t m. (
            in_stage t m,
            λ d needed.
                let edge =
                  depends_of compiled.dependencies t.agent_id d
                    (ap (λ ds. contains ds d) (sym m.1) ∙ needed) in
                let (i, j, at_d, at_t, less) =
                  compiled-Earlier structure_hash spec compiled t.agent_id d h
                    (ap (λ ds. depends ds t.agent_id d) (sym dependencies) ∙ edge) in
                let same : some j ≡ some t.stage = sym at_t ∙ in_stage t m in
                let same' : j ≡ t.stage = cc in (i, at_d, omega (arith, less, same')),
          ))
          mapped,
      names ∙ ap (λ as'. map (λ (a : AgentIdentity). a.agent_id) as') agents,
    )
