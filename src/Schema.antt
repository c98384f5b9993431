-- ===== src/Schema.antt =====
-- src/specflow/schema: the registry of schemas and the one that production uses. A model is a class,
-- an object with an identity that `is` compares; whether it is a pydantic class is part of it.
pub mod Lookups
pub mod Factory
mod Examples
use specflow_agent.Prelude.{
  ℕ, String, Bool, true, false, Option, none, some, List, [], Result, ok, err, ◌>>=◌, ◌>>◌,
  raise_if, not, ◌==◌, nat_eq, string_eq, if◌then◌else◌,
}
use specflow_agent.Prelude.Dict.{Dict, get, put, keys}
use specflow_agent.Prelude.Sort.{sort_by, str_leb}
use specflow_agent.Prelude.Text.{is_blank}

-- RegistryFrozenError, ValueError, SchemaConflictError, SchemaNotFoundError
pub data SchemaError : Type 0 where
  registry_frozen not_a_model empty_schema_id : SchemaError
  schema_conflict schema_not_found : String → SchemaError

pub record SchemaModel : Type 0 where
  pub identity : ℕ
  pub name : String
  pub is_base_model : Bool

pub record SchemaRegistry : Type 0 where
  pub models : Dict String SchemaModel
  pub frozen : Bool

-- SchemaRegistry()
abbrev pub new_registry : SchemaRegistry
new_registry = record { models = []; frozen = false }

-- From `existing = self._models.get(schema_id)` on
abbrev pub add_model :
    SchemaRegistry → String → SchemaModel → Option SchemaModel → Result SchemaError SchemaRegistry
add_model r schema_id model none = ok (record r { models = put r.models schema_id model })
add_model r schema_id model (some existing) =
    if existing.identity == model.identity then ok r else err (schema_conflict schema_id)

-- SchemaRegistry.register
unfoldable pub register : SchemaRegistry → String → SchemaModel → Result SchemaError SchemaRegistry
register r schema_id model = do
  raise_if r.frozen registry_frozen
  raise_if (not model.is_base_model) not_a_model
  raise_if (is_blank schema_id) empty_schema_id
  add_model r schema_id model (get r.models schema_id)

abbrev pub model_or_raise : String → Option SchemaModel → Result SchemaError SchemaModel
model_or_raise schema_id none = err (schema_not_found schema_id)
model_or_raise schema_id (some model) = ok model

-- SchemaRegistry.get
unfoldable pub get_model : SchemaRegistry → String → Result SchemaError SchemaModel
get_model r schema_id = model_or_raise schema_id (get r.models schema_id)

-- SchemaRegistry.list_schemas
unfoldable pub list_schemas : SchemaRegistry → List String
list_schemas r = sort_by str_leb (keys r.models)

-- SchemaRegistry.freeze
unfoldable pub freeze : SchemaRegistry → SchemaRegistry
freeze r = record r { frozen = true }
