-- ===== src/Workers/Examples.antt =====
-- Workers of src/specflow/workers.
use specflow_agent.Prelude.{◌≡◌, refl, true, false, none, some, [], ◌∷◌, ok, string_eq}
use specflow_agent.Prelude.Dict.{get, put, has, update}
use specflow_agent.Prelude.Text.{is_blank}
use specflow_agent.Workflow.{analyzing}
use specflow_agent.Executor.{Outcome, ExecutionContext, StepResult}
use specflow_agent.Workers.Models.{analyze, WorkerContext, WorkerResult}
use specflow_agent.Workers.Registry.{returned, Worker}
use specflow_agent.Workers.Adapter.{
  ContextSource, factory, resolve_worker_context, handle, convert, add_outputs,
}
use specflow_agent.Workers.Adapter.Identity.{handle-Identifies, Identifies}

abbrev result : WorkerResult
result = record {
  worker_name = "analyzer";
  worker_role = analyze;
  success = true;
  output = ("summary", "fine") ∷ [];
  metadata = ("model", "m") ∷ [];
  error_type = none;
  error_message = none;
  requires_review = false;
}

abbrev worker : Worker
worker = record {
  name = "analyzer";
  role = analyze;
  version = "1.0.0";
  description = "Analyzes.";
  execute = λ c. returned result;
}

abbrev worker_context : WorkerContext
worker_context = record {
  run_id = "r";
  requirement = "q";
  project_context = "";
  prior_outputs = [];
  metadata = [];
}

abbrev source : ContextSource
source = factory (λ ctx. ok (some worker_context))

abbrev ctx : ExecutionContext
ctx = record { current_state = analyzing; completed_steps = []; step_results = [] }

abbrev named_step : StepResult
named_step = record {
  metadata =
      ("worker_name", "analyzer")
      ∷ ("worker_role", "analyze")
      ∷ ("worker_version", "1.0.0")
      ∷ ("model", "m")
      ∷ ("output.summary", "fine")
      ∷ [];
}

handle_returns : handle worker (λ t. t) source ctx ≡ Outcome.returned named_step
unfolding handle resolve_worker_context convert add_outputs update put get has is_blank
handle_returns = refl

handle-Identifies_example :
    (c : WorkerContext) × (r : WorkerResult) × (resolve_worker_context source ctx ≡ ok c)
    × (worker.execute c ≡ returned r)
    × (r.success ≡ true)
    × Identifies worker named_step.metadata
handle-Identifies_example = handle-Identifies worker (λ t. t) source ctx named_step handle_returns
