-- ===== src/Workers/Adapter.antt =====
-- src/specflow/workers/adapter.py: a worker as a step handler of the executor.
pub mod Identity
use specflow_agent.Prelude.{
  String, Bool, true, false, Option, none, some, List, [], ◌∷◌, Result, ok, err, any, not, ◌&&◌,
  ◌||◌, keep, ◌==◌, nat_eq, string_eq, if◌then◌else◌,
}
use specflow_agent.Prelude.Dict.{Dict, put, has, keys, update}
use specflow_agent.Prelude.Text.{is_blank, ◌+++◌}
use specflow_agent.Executor
use specflow_agent.Executor.{Raised, StepResult, Outcome, ExecutionContext}
use specflow_agent.Workers.Models.{
  role_value, worker_role_eq, WorkerContext, WorkerResult, is_given, sanitize_worker_text,
}
use specflow_agent.Workers.Registry.{WorkerReply, returned, returned_other, raised, Worker}

-- WorkerExecutionError
abbrev pub execution_error : String → Raised
execution_error message = record { type_name = "WorkerExecutionError"; message = message }

-- RESERVED_STEP_METADATA_KEYS, sorted
abbrev pub reserved_step_metadata_keys : List String
reserved_step_metadata_keys = "worker_name" ∷ "worker_role" ∷ "worker_version" ∷ []

-- ", ".join(texts)
unfoldable pub join_commas : List String → String
join_commas [] = ""
join_commas (t ∷ []) = t
join_commas (t ∷ u ∷ ts) = t +++ ", " +++ join_commas (u ∷ ts)

abbrev pub or_text : Option String → String → String
or_text none default = default
or_text (some text) default = if text == "" then default else text

abbrev pub with_type : Option String → String → String
with_type none message = message
with_type (some error_type) message =
    if error_type == "" then message else error_type +++ ": " +++ message

-- the message of a result that reports a failure
abbrev pub failure_message : WorkerResult → String
failure_message r =
    with_type r.error_type (or_text r.error_message "Worker failed without error message")

-- metadata[f"output.{key}"] = value
unfoldable pub add_outputs : List (String × String) → Dict String String → Dict String String
add_outputs [] metadata = metadata
add_outputs ((key, value) ∷ output) metadata =
    add_outputs output (put metadata ("output." +++ key) value)

-- What StepResult.__post_init__ does with the metadata
abbrev pub step_of : Dict String String → Outcome
step_of metadata =
    if any is_blank (keys metadata)
    then Outcome.raised (record {
      type_name = "ValueError";
      message = "StepResult.metadata keys must be non-empty strings";
    })
    else Outcome.returned (record { metadata = metadata })

-- The worker_context of WorkerStepHandler.__init__; a factory that returns another value gives `none`.
pub data ContextSource : Type 0 where
  fixed : WorkerContext → ContextSource
  factory : (ExecutionContext → Result Raised (Option WorkerContext)) → ContextSource

abbrev pub context_or_raise : Result Raised (Option WorkerContext) → Result Raised WorkerContext
context_or_raise (err e) = err e
context_or_raise (ok none) =
    err (execution_error "Worker context factory must return WorkerContext")
context_or_raise (ok (some c)) = ok c

-- WorkerStepHandler._resolve_worker_context
unfoldable pub resolve_worker_context :
    ContextSource → ExecutionContext → Result Raised WorkerContext
resolve_worker_context (fixed c) ctx = ok c
resolve_worker_context (factory build) ctx = context_or_raise (build ctx)

module _ (worker : Worker) where
  abbrev pub identity_of : WorkerResult → Dict String String
  identity_of r =
      ("worker_name", r.worker_name)
      ∷ ("worker_role", role_value r.worker_role)
      ∷ ("worker_version", worker.version)
      ∷ []

  abbrev pub reserved_keys : WorkerResult → List String
  reserved_keys r = keep (has r.metadata) reserved_step_metadata_keys

  abbrev pub is_empty : List String → Bool
  is_empty [] = true
  is_empty (k ∷ ks) = false

  -- From the check of the identity on
  unfoldable pub convert : WorkerResult → Outcome
  convert r =
      if not (r.worker_name == worker.name) || not (r.worker_role == worker.role)
      then Outcome.raised (execution_error "WorkerResult identity does not match worker metadata")
      else if not r.success
      then Outcome.raised (execution_error (failure_message r))
      else if not (is_empty (reserved_keys r))
      then Outcome.raised (
          execution_error
            ("Worker metadata uses reserved keys: " +++ join_commas (reserved_keys r)))
      else step_of (add_outputs r.output (update (identity_of r) r.metadata))

  module _ (redact : String → String) where
    abbrev pub after_reply : WorkerReply → Outcome
    after_reply (returned r) = convert r
    after_reply returned_other =
        Outcome.raised (execution_error "Worker.execute must return WorkerResult")
    after_reply (raised e) =
        Outcome.raised (execution_error (sanitize_worker_text redact e.message))

    abbrev pub after_context : Result Raised WorkerContext → Outcome
    after_context (ok context) = after_reply (worker.execute context)
    after_context (err e) = Outcome.raised (execution_error (sanitize_worker_text redact e.message))

    -- WorkerStepHandler.execute
    unfoldable pub handle : ContextSource → ExecutionContext → Outcome
    handle source ctx = after_context (resolve_worker_context source ctx)
