-- ===== src/Schema/Examples.antt =====
-- Registries of src/specflow/schema.
use specflow_agent.Prelude.{◌≡◌, refl, true, false, some, List, [], ◌∷◌, string_eq}
use specflow_agent.Prelude.Dict.{get, put}
use specflow_agent.Prelude.Text.{is_blank}
use specflow_agent.Schema.{SchemaRegistry, register, freeze}
use specflow_agent.Schema.Factory.{model_at}
use specflow_agent.Schema.Lookups.{
  SchemaStep, try_register, seal, use_registry, use_registry-Stable,
}

abbrev one_schema : SchemaRegistry
one_schema = record { models = ("in", model_at 1 "Input") ∷ []; frozen = false }

abbrev steps : List SchemaStep
steps =
    try_register "in" (model_at 2 "Other") ∷ seal ∷ try_register "out" (model_at 3 "Output") ∷ []

use_registry-Stable_example :
    (get one_schema.models "in" ≡ some (model_at 1 "Input")
      → get (use_registry one_schema steps).models "in" ≡ some (model_at 1 "Input"))
    × (one_schema.frozen ≡ true → use_registry one_schema steps ≡ one_schema)
use_registry-Stable_example = use_registry-Stable one_schema steps "in" (model_at 1 "Input")

conflict_is_refused : (use_registry one_schema steps).models ≡ one_schema.models
unfolding use_registry register freeze get put is_blank
conflict_is_refused = refl
