-- ===== src/Coordinator/Planning/Totality.antt =====
-- src/specflow/coordinator/coordinator.py: what `Coordinator.plan` returns.
use specflow_agent.Prelude.{
  ℕ, suc, ◌≡◌, refl, subst, ap, sym, String, Bool, false, Option, none, some, List, [], ◌∷◌, map,
  string_eq, Result, ok, err, ◌>>=◌, ◌>>◌, >>=-eq-ok, arith, All, inl, inr, ◌⊎◌, Result-cases,
}
use specflow_agent.Prelude.Dict.{Dict, get, put}
use specflow_agent.Prelude.Json.{Value}
use specflow_agent.Prelude.Multiset.{unique}
use specflow_agent.Prelude.Sort.{sort_by, insert_by, str_leb}
use specflow_agent.Prelude.Text.{is_blank}
use specflow_agent.Agents.Models.{AgentIdentity, AgentConstraints}
use specflow_agent.Plan.Models.{PlanError, StructuralDelegationSpec, CompiledStructuralPlan}
use specflow_agent.Plan.Briefs.{SemanticTaskBrief, AgentTask, EffectiveDelegationPlan}
use specflow_agent.Plan.Planner.{generate, fixed_topology_agents}
use specflow_agent.Plan.Planner.Topology.{fixed_stages, generate-compiled}
use specflow_agent.Plan.Compiler.{compile, plan_of, or_empty}
use specflow_agent.Plan.Validator.{validate, check_registry}
use specflow_agent.Plan.Validator.Accepts.{compiled-Valid}
use specflow_agent.Plan.Enricher.{EnricherWorld, SemanticPlanEnricher, enrich, map_err}
use specflow_agent.Plan.Enricher.Fallbacks.{AllAnswered, enrich-AllAnswered}
use specflow_agent.Coordinator.Revision.{RevisionController, new_controller}
use specflow_agent.Coordinator.Planning.{
  PlanningError, bad_plan, bad_brief, hash_failed, BriefFields, brief_fields, map_stage, map_stages,
  map_dependencies, map_constraints, build_task, build_tasks, task_of, tasks_of, compiled_of,
  Hashes, compute_semantic_brief_hash, sort_brief, sort_each_brief, Coordinator, plan_compiled,
  plan,
}
use specflow_agent.Coordinator.Planning.Tasks.{IsPlaced, tasks_of-IsPlaced}

abbrev effective :
    Hashes
    → String
    → String
    → CompiledStructuralPlan
    → String
    → List AgentTask
    → EffectiveDelegationPlan
effective hashes run_id generated_at compiled brief_hash tasks = record {
  plan_id = compiled.plan_id;
  run_id = run_id;
  structure_hash = compiled.structure_hash;
  semantic_brief_hash = brief_hash;
  effective_plan_hash = hashes.effective_plan_hash compiled.structure_hash brief_hash;
  stages = compiled.execution_stages;
  tasks = tasks;
  revision_policy = compiled.revision_policy;
  generated_at = generated_at;
}

compiled_of-ok :
    (o : Option (Result PlanError CompiledStructuralPlan)) {p : CompiledStructuralPlan}
    → compiled_of o ≡ ok p
    → o ≡ some (ok p)
compiled_of-ok none h = cc
compiled_of-ok (some (ok p)) h = cc
compiled_of-ok (some (err e)) h = cc

ok-injective : {A : Type 0} {a b : A} → (let r : Result PlanningError A = ok a in r) ≡ ok b → a ≡ b
ok-injective h = cc

-- What lies behind a plan that the coordinator returned.
plan-cases :
    (hashes : Hashes) (self : Coordinator) (world : EnricherWorld)
    (plan_id run_id generated_at : String) (c : RevisionController) (ep : EffectiveDelegationPlan)
    → plan hashes self world plan_id run_id generated_at ≡ ok (c, ep)
    → (compiled : CompiledStructuralPlan) × (briefs : List SemanticTaskBrief) × (h : String)
      × (tasks : List AgentTask) × (compile hashes.structure_hash (generate plan_id)
          ≡ some (ok compiled))
      × (tasks_of compiled briefs ≡ ok tasks)
      × (new_controller compiled.revision_policy ≡ c)
      × (effective hashes run_id generated_at compiled h tasks ≡ ep)
unfolding plan plan_compiled
plan-cases hashes self world plan_id run_id generated_at c ep h =
    let spec = generate plan_id in
    let after =
      λ (p : CompiledStructuralPlan). plan_compiled hashes self world run_id generated_at spec p in
    let (compiled, compiles, h1) =
      >>=-eq-ok (compiled_of (compile hashes.structure_hash spec))
        (λ p. map_err bad_plan (validate p self.schema_registry) >> after p) h in
    let (u, valid, h2) =
      >>=-eq-ok (map_err bad_plan (validate compiled self.schema_registry)) (λ _. after compiled)
        h1 in
    let finish : String
        → List AgentTask
        → Result PlanningError (RevisionController × EffectiveDelegationPlan) =
      λ brief_hash ts. ok (
        new_controller compiled.revision_policy,
        effective hashes run_id generated_at compiled brief_hash ts,
      ) in
    let (briefs, briefed, h3) =
      >>=-eq-ok (map_err bad_brief (enrich self.enricher world spec))
        (λ bs.
          map_err hash_failed (compute_semantic_brief_hash hashes (map brief_fields bs))
          >>= λ (h : String). tasks_of compiled bs >>= finish h)
        h2 in
    let (brief_hash, hashed, h4) =
      >>=-eq-ok (map_err hash_failed (compute_semantic_brief_hash hashes (map brief_fields briefs)))
        (λ (h : String). tasks_of compiled briefs >>= finish h) h3 in
    let (tasks, built, h5) = >>=-eq-ok (tasks_of compiled briefs) (finish brief_hash) h4 in
    let same = ok-injective h5 in
    (
      compiled,
      briefs,
      brief_hash,
      tasks,
      compiled_of-ok (compile hashes.structure_hash spec) compiles,
      built,
      ap (λ r. r.0) same,
      ap (λ r. r.1) same,
    )

-- In every plan that the coordinator returns there is one task for each agent of the fixed topology,
-- in their order, each with the index of the stage in which its agent stands, and behind the stages
-- of all agents that it depends on; the revision controller is a new one for the plan's policy.
pub plan-IsPlaced :
    (hashes : Hashes) (self : Coordinator) (world : EnricherWorld)
    (plan_id run_id generated_at : String) (c : RevisionController) (ep : EffectiveDelegationPlan)
    → plan hashes self world plan_id run_id generated_at ≡ ok (c, ep)
    → All (IsPlaced ep.stages) ep.tasks
      × (map (λ t. t.agent_id) ep.tasks ≡ map (λ a. a.agent_id) fixed_topology_agents)
      × (c ≡ new_controller ep.revision_policy)
unfolding generate
plan-IsPlaced hashes self world plan_id run_id generated_at c ep h =
    let (compiled, briefs, brief_hash, tasks, compiles, built, fresh, same) =
      plan-cases hashes self world plan_id run_id generated_at c ep h in
    let (placed, names) =
      tasks_of-IsPlaced hashes.structure_hash (generate plan_id) compiled briefs tasks compiles
        built in
    subst
      (λ (q : EffectiveDelegationPlan).
        All (IsPlaced q.stages) q.tasks
        × (map (λ t. t.agent_id) q.tasks ≡ map (λ a. a.agent_id) fixed_topology_agents)
        × (c ≡ new_controller q.revision_policy))
      same (placed, names, sym fresh)

module _ (stage_map : Dict String ℕ) (dep_map : Dict String (List String))
    (constraints_map : Dict String AgentConstraints) where
  abbrev IsKnown : AgentIdentity → Type 0
  IsKnown a =
      ((i : ℕ) × (get stage_map a.agent_id ≡ some i))
      × ((k : AgentConstraints) × (get constraints_map a.agent_id ≡ some k))

  build_tasks-returns :
      (self : SemanticPlanEnricher) (world : EnricherWorld) (n : ℕ) (agents : List AgentIdentity)
      (bs : List SemanticTaskBrief)
      → All IsKnown agents
      → AllAnswered self world n agents bs
      → (ts : List AgentTask) × (build_tasks stage_map dep_map constraints_map agents bs ≡ ok ts)
        × (map (λ t. t.task_brief) ts ≡ bs)
  unfolding build_tasks build_task
  build_tasks-returns self world n [] [] known answered = ([], refl, refl)
  build_tasks-returns self world n [] (b ∷ bs) known answered = absurd answered
  build_tasks-returns self world n (a ∷ agents) [] known answered = absurd answered
  build_tasks-returns self world n (a ∷ agents) (b ∷ bs) known answered =
      let ((i, staged), (k, limited)) = known.0 in
      let (ts, built, same) = build_tasks-returns self world (suc n) agents bs known.1 answered.1 in
      (
        task_of a i (or_empty (get dep_map a.agent_id)) k b ∷ ts,
        rw staged (rw limited (rw built refl)),
        rw same refl,
      )

fixed_tasks :
    (structure_hash : StructuralDelegationSpec → List (List String) → String) (plan_id : String)
    (self : SemanticPlanEnricher) (world : EnricherWorld) (bs : List SemanticTaskBrief)
    → AllAnswered self world 0 fixed_topology_agents bs
    → (ts : List AgentTask) × (tasks_of (plan_of structure_hash (generate plan_id) fixed_stages) bs
        ≡ ok ts)
      × (map (λ t. t.task_brief) ts ≡ bs)
unfolding tasks_of generate map_stages map_stage map_constraints get put unique sort_by insert_by
    str_leb
fixed_tasks structure_hash plan_id self world bs answered =
    let compiled = plan_of structure_hash (generate plan_id) fixed_stages in
    build_tasks-returns (map_stages 0 compiled.execution_stages [])
      (map_dependencies compiled.dependencies []) (map_constraints compiled.constraints []) self
      world 0 fixed_topology_agents bs
      (
        ((_, refl), (_, refl)),
        (
          ((_, refl), (_, refl)),
          (
            ((_, refl), (_, refl)),
            (((_, refl), (_, refl)), (((_, refl), (_, refl)), (((_, refl), (_, refl)), tt))),
          ),
        ),
      )
      answered

validate-registered :
    (p : CompiledStructuralPlan) (registry : Option (String → Bool))
    → validate p none ≡ ok tt
    → check_registry registry p.agents ≡ ok tt
    → validate p registry ≡ ok tt
unfolding validate
validate-registered p registry valid registered = ground (arith, valid, registered)

fixed_registered :
    (plan_id : String) (registry : Option (String → Bool))
    → check_registry registry fixed_topology_agents ≡ ok tt
    → check_registry registry (generate plan_id).agents ≡ ok tt
unfolding generate
fixed_registered plan_id registry h = h

generate_enriched :
    (self : SemanticPlanEnricher) (world : EnricherWorld) (plan_id : String)
    → (bs : List SemanticTaskBrief) × (enrich self world (generate plan_id) ≡ ok bs)
      × AllAnswered self world 0 fixed_topology_agents bs
unfolding generate is_blank
generate_enriched self world plan_id =
    enrich-AllAnswered self world (generate plan_id)
      (refl, (refl, (refl, (refl, (refl, (refl, tt))))))

sort_each_brief-returns :
    (hashes : Hashes)
    → ((xs : List Value) → (ys : List Value) × (hashes.sort_items xs ≡ ok ys))
    → (bs : List BriefFields) → (bs' : List BriefFields) × (sort_each_brief hashes bs ≡ ok bs')
unfolding sort_each_brief sort_brief
sort_each_brief-returns hashes sorts [] = ([], refl)
sort_each_brief-returns hashes sorts (b ∷ bs) =
    let (focus, focused) = sorts b.analysis_focus in
    let (hints, hinted) = sorts b.evaluation_hints in
    let (bs', rest) = sort_each_brief-returns hashes sorts bs in
    (
      record b { analysis_focus = focus; evaluation_hints = hints } ∷ bs',
      rw focused (rw hinted (rw rest refl)),
    )

-- The hash of briefs raises only where sorting or the digest does.
pub compute_semantic_brief_hash-returns :
    (hashes : Hashes)
    → ((xs : List Value) → (ys : List Value) × (hashes.sort_items xs ≡ ok ys))
    → ((bs : List BriefFields) → (h : String) × (hashes.digest bs ≡ ok h))
    → (bs : List BriefFields) → (h : String) × (compute_semantic_brief_hash hashes bs ≡ ok h)
unfolding compute_semantic_brief_hash
compute_semantic_brief_hash-returns hashes sorts digests bs =
    let (bs', sorted) = sort_each_brief-returns hashes sorts bs in
    let (h, digested) = digests (sort_by (λ a b. str_leb a.agent_id b.agent_id) bs') in
    (h, rw sorted digested)

-- What planning does with the briefs of the enrichment.
abbrev pub Planned :
    Hashes
    → Coordinator
    → EnricherWorld
    → String
    → String
    → String
    → List SemanticTaskBrief
    → Type 0
Planned hashes self world plan_id run_id generated_at bs =
    ((c : RevisionController) × (ep : EffectiveDelegationPlan) × (plan hashes self world plan_id
          run_id generated_at
        ≡ ok (c, ep))
      × (map (λ t. t.task_brief) ep.tasks ≡ bs))
    ⊎ ((e : String) × (compute_semantic_brief_hash hashes (map brief_fields bs) ≡ err e)
        × (plan hashes self world plan_id run_id generated_at ≡ err (hash_failed e)))

-- When the registry, if there is one, has the schemas of the fixed agents and the plan's id and its
-- structure's hash are not blank, planning has a brief for each agent, whatever the provider does: a
-- full one if the agent's call went well, and else a degraded one. It returns a plan whose tasks carry
-- these briefs in order, or the hash of the briefs raises, and planning raises the same.
pub plan-Total :
    (hashes : Hashes) (self : Coordinator) (world : EnricherWorld)
    (plan_id run_id generated_at : String)
    → check_registry self.schema_registry fixed_topology_agents ≡ ok tt
    → is_blank plan_id ≡ false
    → is_blank (hashes.structure_hash (generate plan_id) fixed_stages) ≡ false
    → (bs : List SemanticTaskBrief) × (enrich self.enricher world (generate plan_id) ≡ ok bs)
      × AllAnswered self.enricher world 0 fixed_topology_agents bs
      × Planned hashes self world plan_id run_id generated_at bs
unfolding plan plan_compiled
plan-Total hashes self world plan_id run_id generated_at registered named hashed =
    let spec = generate plan_id in
    let compiled = plan_of hashes.structure_hash spec fixed_stages in
    let compiles = generate-compiled hashes.structure_hash plan_id named hashed in
    let valid =
      validate-registered compiled self.schema_registry
        (compiled-Valid hashes.structure_hash spec compiled compiles)
        (fixed_registered plan_id self.schema_registry registered) in
    let (briefs, briefed, answered) = generate_enriched self.enricher world plan_id in
    let (tasks, built, same) =
      fixed_tasks hashes.structure_hash plan_id self.enricher world briefs answered in
    let planned : Planned hashes self world plan_id run_id generated_at briefs =
      elim (Result-cases (compute_semantic_brief_hash hashes (map brief_fields briefs))) [
        | inl (brief_hash, brief_hashed) ↦ inl (
          new_controller compiled.revision_policy,
          effective hashes run_id generated_at compiled brief_hash tasks,
          rw compiles (rw valid (rw briefed (rw brief_hashed (rw built refl)))),
          same,
        )
        | inr (e, failed) ↦ inr (e, failed, rw compiles (rw valid (rw briefed (rw failed refl))))
      ] in
    (briefs, briefed, answered, planned)
