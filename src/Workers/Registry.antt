-- ===== src/Workers/Registry.antt =====
-- src/specflow/workers/registry.py, and what src/specflow/workers/base.py asks of a worker.
use specflow_agent.Prelude.{
  String, Option, none, some, List, [], ◌∷◌, Result, ok, err, ◌>>=◌, ◌>>◌, raise_if, string_eq,
  contains,
}
use specflow_agent.Prelude.Dict.{Dict, get, put, has, keys}
use specflow_agent.Prelude.Sort.{sort_by, str_leb}
use specflow_agent.Executor.{Raised}
use specflow_agent.Workers.Models.{
  WorkerRole, role_value, worker_role_eq, WorkerError, WorkerMetadata, check_worker, WorkerContext,
  WorkerResult,
}

-- What Worker.execute does
pub data WorkerReply : Type 0 where
  returned : WorkerResult → WorkerReply
  returned_other : WorkerReply
  raised : Raised → WorkerReply

-- Worker
pub record Worker : Type 0 where
  pub name : String
  pub role : WorkerRole
  pub version : String
  pub description : String
  pub execute : WorkerContext → WorkerReply

-- WorkerValidationError, DuplicateWorkerError and WorkerNotFoundError
pub data RegistryError : Type 0 where
  invalid_worker : WorkerError → RegistryError
  duplicate_role no_worker : WorkerRole → RegistryError
  duplicate_name : String → RegistryError

abbrev pub as_metadata : Worker → WorkerMetadata
as_metadata w = record {
  name = w.name;
  role = w.role;
  version = w.version;
  description = w.description;
}

abbrev pub or_invalid : Worker → Result WorkerError (Unit {0}) → Result RegistryError WorkerMetadata
or_invalid w (ok u) = ok (as_metadata w)
or_invalid w (err e) = err (invalid_worker e)

-- worker_metadata
unfoldable pub worker_metadata : Worker → Result RegistryError WorkerMetadata
worker_metadata w = or_invalid w (check_worker (as_metadata w))

-- WorkerRegistry
pub record WorkerRegistry : Type 0 where
  pub workers_by_role : Dict WorkerRole Worker
  pub names : List String

-- WorkerRegistry.register
unfoldable pub register_worker : WorkerRegistry → Worker → Result RegistryError WorkerRegistry
register_worker r w = do
  m ← worker_metadata w
  raise_if (has r.workers_by_role m.role) (duplicate_role m.role)
  raise_if (contains r.names m.name) (duplicate_name m.name)
  ok (record { workers_by_role = put r.workers_by_role m.role w; names = m.name ∷ r.names })

abbrev pub worker_or_raise : WorkerRole → Option Worker → Result RegistryError Worker
worker_or_raise role none = err (no_worker role)
worker_or_raise role (some w) = ok w

-- WorkerRegistry.get
unfoldable pub get_worker : WorkerRegistry → WorkerRole → Result RegistryError Worker
get_worker r role = worker_or_raise role (get r.workers_by_role role)

unfoldable pub metadata_of_roles :
    WorkerRegistry → List WorkerRole → Result RegistryError (List WorkerMetadata)
metadata_of_roles r [] = ok []
metadata_of_roles r (role ∷ roles) = do
  w ← get_worker r role
  m ← worker_metadata w
  ms ← metadata_of_roles r roles
  ok (m ∷ ms)

-- WorkerRegistry.metadata
unfoldable pub registry_metadata : WorkerRegistry → Result RegistryError (List WorkerMetadata)
unfolding metadata_of_roles
registry_metadata r =
    metadata_of_roles r
      (sort_by (λ a b. str_leb (role_value a) (role_value b)) (keys r.workers_by_role))
