-- ===== src/Coordinator/Planning/Examples.antt =====
-- Plans of src/specflow/coordinator/coordinator.py, with the enrichment of
-- src/specflow/plan/enricher.py.
use specflow_agent.Prelude.{
  ℕ, ◌≡◌, refl, true, false, ◌==◌, nat_eq, String, some, List, [], ◌∷◌, Bool, all, if◌then◌else◌,
  inl, inr, map, Result, ok, err, All,
}
use specflow_agent.Prelude.Int.{pos}
use specflow_agent.Prelude.Json.{Value, obj, arr, str, int, field, end, item, nil}
use specflow_agent.Prelude.Text.{is_blank}
use specflow_agent.Llm.Models.{LlmRequest, LlmResponse}
use specflow_agent.Plan.Briefs.{SemanticTaskBrief, EffectiveDelegationPlan}
use specflow_agent.Plan.Planner.{generate, fixed_topology_agents}
use specflow_agent.Plan.Enricher.{EnricherWorld, SemanticPlanEnricher, enrich}
use specflow_agent.Plan.Enricher.Fallbacks.{AllAnswered, enrich-AllAnswered}
use specflow_agent.Schema.Factory.{knows, build-knows_agents}
use specflow_agent.Coordinator.Revision.{RevisionController, new_controller}
use specflow_agent.Coordinator.Planning.{Hashes, brief_fields, Coordinator, plan}
use specflow_agent.Coordinator.Planning.Tasks.{IsPlaced}
use specflow_agent.Coordinator.Planning.Totality.{
  Planned, compute_semantic_brief_hash-returns, plan-Total, plan-IsPlaced,
}

abbrev reply : LlmResponse
reply = record {
  content = "{...}";
  model = "m";
  usage = record { input_tokens = pos 1; output_tokens = pos 2; total_tokens = pos 3 };
  latency_ms = pos 10;
  finish_reason = "stop";
}

-- The second call fails.
abbrev moody : ℕ → LlmRequest → Result String LlmResponse
moody n request = elim (n == 1) [ true ↦ err "timeout" | false ↦ ok reply ]

abbrev answer : Value
answer = obj (
    field "task_description" (str "Look at the parser.")
      (field "analysis_focus" (arr (item (str "parser") (item (int (pos 3)) nil))) end))

abbrev world : EnricherWorld
world = record {
  complete = moody;
  loads = λ text. some answer;
  trace_id = λ n. "trace";
  now = λ n. "12:00";
}

abbrev enricher : SemanticPlanEnricher
enricher = record { model = "m"; provider = "p" }

-- With the registry that production uses.
abbrev coordinator : Coordinator
coordinator = record { enricher = enricher; schema_registry = some (knows (build-knows_agents.0)) }

-- sorted, on items of which two or more are compared only when all are texts
abbrev is_text : Value → Bool
is_text (str s) = true
is_text _ = false

abbrev sort_texts : List Value → Result String (List Value)
sort_texts [] = ok []
sort_texts (x ∷ []) = ok (x ∷ [])
sort_texts (x ∷ y ∷ xs) = if all is_text (x ∷ y ∷ xs) then ok (x ∷ y ∷ xs) else err "TypeError"

abbrev hashes : Hashes
hashes = record {
  structure_hash = λ spec stages. "c0ffee";
  sort_items = sort_texts;
  digest = λ bs. ok "beef";
  effective_plan_hash = λ a b. a;
}

-- The same with a sorted that compares all values.
abbrev total_hashes : Hashes
total_hashes = record hashes { sort_items = λ xs. ok xs }

enrich-AllAnswered_example :
    (bs : List SemanticTaskBrief) × (enrich enricher world (generate "plan-1") ≡ ok bs)
    × AllAnswered enricher world 0 (generate "plan-1").agents bs
unfolding generate is_blank
enrich-AllAnswered_example =
    enrich-AllAnswered enricher world (generate "plan-1")
      (refl, (refl, (refl, (refl, (refl, (refl, tt))))))

plan-Total_example :
    (bs : List SemanticTaskBrief) × (enrich enricher world (generate "plan-1") ≡ ok bs)
    × AllAnswered enricher world 0 fixed_topology_agents bs
    × Planned hashes coordinator world "plan-1" "run-1" "12:00" bs
unfolding is_blank
plan-Total_example =
    plan-Total hashes coordinator world "plan-1" "run-1" "12:00" build-knows_agents.3 refl refl

the_plan :
    (c : RevisionController) × (ep : EffectiveDelegationPlan) × (plan total_hashes coordinator world
        "plan-1" "run-1" "12:00"
      ≡ ok (c, ep))
unfolding is_blank
the_plan =
    let (bs, briefed, answered, planned) =
      plan-Total total_hashes coordinator world "plan-1" "run-1" "12:00" build-knows_agents.3 refl
        refl in
    elim planned [
      | inl (c, ep, h, same) ↦ (c, ep, h)
      | inr (e, failed, h) ↦
          let (beef, returned) =
            compute_semantic_brief_hash-returns total_hashes (λ xs. (xs, refl))
              (λ fields. ("beef", refl)) (map brief_fields bs) in
          absurd (cc (failed, returned))
    ]

plan-IsPlaced_example :
    All (IsPlaced the_plan.1.stages) the_plan.1.tasks
    × (map (λ t. t.agent_id) the_plan.1.tasks ≡ map (λ a. a.agent_id) fixed_topology_agents)
    × (the_plan.0 ≡ new_controller the_plan.1.revision_policy)
plan-IsPlaced_example =
    plan-IsPlaced total_hashes coordinator world "plan-1" "run-1" "12:00" the_plan.0 the_plan.1
      the_plan.2
