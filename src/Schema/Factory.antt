-- ===== src/Schema/Factory.antt =====
-- src/specflow/schema/factory.py: the registry of the schemas of the six agents.
use specflow_agent.Prelude.{
  ℕ, ◌≡◌, refl, String, string_eq, Bool, true, some, List, [], ◌∷◌, Result, ok, ◌>>=◌,
}
use specflow_agent.Prelude.Dict.{get, put, has}
use specflow_agent.Prelude.Text.{is_blank}
use specflow_agent.Plan.Planner.{fixed_topology_agents}
use specflow_agent.Plan.Validator.{check_registry, check_schema_ids}
use specflow_agent.Schema.{SchemaError, SchemaModel, SchemaRegistry, new_registry, register, freeze}

abbrev pub model_at : ℕ → String → SchemaModel
model_at n name = record { identity = n; name = name; is_base_model = true }

-- The registrations of build_schema_registry, in order
abbrev pub production_schemas : List (String × SchemaModel)
production_schemas =
    ("agent/repository-analyst/v1/input", model_at 1 "RepositoryAnalystInput")
    ∷ ("agent/repository-analyst/v1/output", model_at 2 "RepositoryAnalysisPayload")
    ∷ ("agent/design/v1/input", model_at 3 "DesignInput")
    ∷ ("agent/design/v1/output", model_at 4 "DesignPayload")
    ∷ ("agent/test-strategy/v1/input", model_at 5 "TestStrategyInput")
    ∷ ("agent/test-strategy/v1/output", model_at 6 "TestStrategyPayload")
    ∷ ("agent/risk-review/v1/input", model_at 7 "RiskReviewInput")
    ∷ ("agent/risk-review/v1/output", model_at 8 "RiskReviewPayload")
    ∷ ("agent/synthesis/v1/input", model_at 9 "SynthesisInput")
    ∷ ("agent/synthesis/v1/output", model_at 10 "SynthesisPayload")
    ∷ ("agent/review/v1/input", model_at 11 "ReviewInput")
    ∷ ("agent/review/v1/output", model_at 12 "ReviewPayload")
    ∷ []

unfoldable pub register_each :
    SchemaRegistry → List (String × SchemaModel) → Result SchemaError SchemaRegistry
register_each r [] = ok r
register_each r ((schema_id, model) ∷ schemas) = do
  r' ← register r schema_id model
  register_each r' schemas

-- build_schema_registry
unfoldable pub build_schema_registry : Result SchemaError SchemaRegistry
unfolding register_each
build_schema_registry = do r ← register_each new_registry production_schemas; ok (freeze r)

abbrev pub knows : SchemaRegistry → String → Bool
knows r schema_id = has r.models schema_id

-- The registry that production uses is built without an error and frozen, and has both schemas of
-- each agent of the fixed topology.
pub build-knows_agents :
    (r : SchemaRegistry) × (build_schema_registry ≡ ok r)
    × (r.frozen ≡ true)
    × (check_registry (some (knows r)) fixed_topology_agents ≡ ok tt)
unfolding build_schema_registry register freeze get put has is_blank check_schema_ids
build-knows_agents = (_, refl, refl, refl)
