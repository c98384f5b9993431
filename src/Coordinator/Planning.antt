-- ===== src/Coordinator/Planning.antt =====
-- src/specflow/coordinator/coordinator.py: `Coordinator.plan`, and from src/specflow/plan/hash_utils.py
-- the hash of the briefs. A plan id, the clock, the schemas that are registered and the world of the
-- enricher are arguments, and so are SHA-256 over JSON and the sorting of unchecked values.
pub mod Tasks
pub mod Totality
mod Examples
use specflow_agent.Prelude.{
  ℕ, suc, String, Bool, Option, none, some, List, [], ◌∷◌, map, ◌==◌, string_eq, Result, ok, err,
  ◌>>=◌, ◌>>◌, if◌then◌else◌,
}
use specflow_agent.Prelude.Dict.{Dict, get, put}
use specflow_agent.Prelude.Json.{Value}
use specflow_agent.Prelude.Sort.{sort_by, str_leb}
use specflow_agent.Agents.Models.{AgentIdentity, AgentDependency, AgentConstraints}
use specflow_agent.Plan.Models.{PlanError, StructuralDelegationSpec, CompiledStructuralPlan}
use specflow_agent.Plan.Briefs.{BriefError, SemanticTaskBrief, AgentTask, EffectiveDelegationPlan}
use specflow_agent.Plan.Planner.{generate}
use specflow_agent.Plan.Compiler.{compile, or_empty}
use specflow_agent.Plan.Validator.{validate}
use specflow_agent.Plan.Enricher.{EnricherWorld, SemanticPlanEnricher, enrich, map_err, or_err}
use specflow_agent.Coordinator.Revision.{RevisionController, new_controller}

-- The exceptions that may leave `plan`
pub data PlanningError : Type 0 where
  does_not_end : PlanningError
  bad_plan : PlanError → PlanningError
  bad_brief : BriefError → PlanningError
  hash_failed : String → PlanningError
  key_error : String → PlanningError
  index_error : PlanningError

-- The entries of brief_dicts: a brief without its status and provenance
pub record BriefFields : Type 0 where
  pub agent_id : String
  pub task_description : Value
  pub analysis_focus : List Value
  pub evaluation_hints : List Value
  pub repository_scope_hint : Value

unfoldable pub brief_fields : SemanticTaskBrief → BriefFields
brief_fields b = record {
  agent_id = b.agent_id;
  task_description = b.task_description;
  analysis_focus = b.analysis_focus;
  evaluation_hints = b.evaluation_hints;
  repository_scope_hint = b.repository_scope_hint;
}

-- for agent_id in stage: stage_map[agent_id] = idx
unfoldable pub map_stage : ℕ → List String → Dict String ℕ → Dict String ℕ
map_stage idx [] m = m
map_stage idx (agent_id ∷ ids) m = map_stage idx ids (put m agent_id idx)

-- stage_map, from the stage idx on
unfoldable pub map_stages : ℕ → List (List String) → Dict String ℕ → Dict String ℕ
map_stages idx [] m = m
map_stages idx (stage ∷ stages) m = map_stages (suc idx) stages (map_stage idx stage m)

-- dep_map
unfoldable pub map_dependencies :
    List AgentDependency → Dict String (List String) → Dict String (List String)
map_dependencies [] m = m
map_dependencies (d ∷ ds) m = map_dependencies ds (put m d.agent_id d.depends_on)

-- constraints_map
unfoldable pub map_constraints :
    List AgentConstraints → Dict String AgentConstraints → Dict String AgentConstraints
map_constraints [] m = m
map_constraints (c ∷ cs) m = map_constraints cs (put m c.agent_id c)

-- briefs[i], with the briefs from i on
abbrev pub brief_at : List SemanticTaskBrief → Result PlanningError SemanticTaskBrief
brief_at [] = err index_error
brief_at (b ∷ bs) = ok b

abbrev pub later_briefs : List SemanticTaskBrief → List SemanticTaskBrief
later_briefs [] = []
later_briefs (b ∷ bs) = bs

abbrev pub task_of :
    AgentIdentity → ℕ → List String → AgentConstraints → SemanticTaskBrief → AgentTask
task_of a stage depends_on constraints brief = record {
  agent_id = a.agent_id;
  role = a.role;
  stage = stage;
  depends_on = depends_on;
  constraints = constraints;
  task_brief = brief;
}

module _ (stage_map : Dict String ℕ) (dep_map : Dict String (List String))
    (constraints_map : Dict String AgentConstraints) where
  unfoldable pub build_task :
      AgentIdentity → List SemanticTaskBrief → Result PlanningError AgentTask
  build_task a bs = do
    stage ← or_err (key_error a.agent_id) (get stage_map a.agent_id)
    constraints ← or_err (key_error a.agent_id) (get constraints_map a.agent_id)
    brief ← brief_at bs
    ok (task_of a stage (or_empty (get dep_map a.agent_id)) constraints brief)

  -- tasks
  unfoldable pub build_tasks :
      List AgentIdentity → List SemanticTaskBrief → Result PlanningError (List AgentTask)
  build_tasks [] bs = ok []
  build_tasks (a ∷ agents) bs = do
    task ← build_task a bs
    tasks ← build_tasks agents (later_briefs bs)
    ok (task ∷ tasks)

unfoldable pub tasks_of :
    CompiledStructuralPlan → List SemanticTaskBrief → Result PlanningError (List AgentTask)
unfolding build_tasks
tasks_of compiled briefs =
    build_tasks (map_stages 0 compiled.execution_stages [])
      (map_dependencies compiled.dependencies []) (map_constraints compiled.constraints [])
      compiled.agents briefs

-- `compile` ends, which is a theorem about it.
abbrev pub compiled_of :
    Option (Result PlanError CompiledStructuralPlan) → Result PlanningError CompiledStructuralPlan
compiled_of none = err does_not_end
compiled_of (some r) = map_err bad_plan r

-- The arguments of the planning that are not of the plan: Python's sorted on the values of JSON, which
-- raises where it cannot compare two of them, and SHA-256 over canonical JSON
pub record Hashes : Type 0 where
  pub structure_hash : StructuralDelegationSpec → List (List String) → String
  pub sort_items : List Value → Result String (List Value)
  pub digest : List BriefFields → Result String String
  pub effective_plan_hash : String → String → String

unfoldable pub sort_brief : Hashes → BriefFields → Result String BriefFields
sort_brief hashes b = do
  focus ← hashes.sort_items b.analysis_focus
  hints ← hashes.sort_items b.evaluation_hints
  ok (record b { analysis_focus = focus; evaluation_hints = hints })

unfoldable pub sort_each_brief : Hashes → List BriefFields → Result String (List BriefFields)
unfolding sort_brief
sort_each_brief hashes [] = ok []
sort_each_brief hashes (b ∷ bs) = do
  b' ← sort_brief hashes b
  bs' ← sort_each_brief hashes bs
  ok (b' ∷ bs')

-- compute_semantic_brief_hash
unfoldable pub compute_semantic_brief_hash : Hashes → List BriefFields → Result String String
compute_semantic_brief_hash hashes briefs = do
  bs ← sort_each_brief hashes briefs
  hashes.digest (sort_by (λ a b. str_leb a.agent_id b.agent_id) bs)

-- Coordinator: what `plan` reads
pub record Coordinator : Type 0 where
  pub enricher : SemanticPlanEnricher
  pub schema_registry : Option (String → Bool)

module _ (hashes : Hashes) (self : Coordinator) (world : EnricherWorld) where
  -- Steps 4 to 8
  unfoldable pub plan_compiled :
      String
      → String
      → StructuralDelegationSpec
      → CompiledStructuralPlan
      → Result PlanningError (RevisionController × EffectiveDelegationPlan)
  plan_compiled run_id generated_at spec compiled = do
    briefs ← map_err bad_brief (enrich self.enricher world spec)
    brief_hash ← map_err hash_failed (compute_semantic_brief_hash hashes (map brief_fields briefs))
    tasks ← tasks_of compiled briefs
    ok (
      new_controller compiled.revision_policy,
      record {
        plan_id = compiled.plan_id;
        run_id = run_id;
        structure_hash = compiled.structure_hash;
        semantic_brief_hash = brief_hash;
        effective_plan_hash = hashes.effective_plan_hash compiled.structure_hash brief_hash;
        stages = compiled.execution_stages;
        tasks = tasks;
        revision_policy = compiled.revision_policy;
        generated_at = generated_at;
      },
    )

  -- Coordinator.plan: the new revision controller and the plan
  unfoldable pub plan :
      String → String → String → Result PlanningError (RevisionController × EffectiveDelegationPlan)
  plan plan_id run_id generated_at = do
    compiled ← compiled_of (compile hashes.structure_hash (generate plan_id))
    map_err bad_plan (validate compiled self.schema_registry)
    plan_compiled run_id generated_at (generate plan_id) compiled
