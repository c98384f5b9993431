-- ===== src/Coordinator/Scheduler.antt =====
-- src/specflow/coordinator/scheduler.py. The stages run one after the other; what the threads of a
-- stage do is an argument: the clock at its start, the order in which `as_completed` hands out the
-- futures, and whether its timeout ended that loop. An executor is a function of its context.
pub mod Stage
pub mod Delivery
pub mod Orders
mod Examples
use specflow_agent.Prelude.{
  ℕ, suc, ◌-◌, String, Bool, true, false, Option, none, some, List, [], ◌∷◌, ◌==◌, nat_eq,
  string_eq, Result, ok, err, ◌>>=◌, ◌>>◌, raise_if, not, if◌then◌else◌,
}
use specflow_agent.Prelude.Dict.{Dict, get, put, has, update}

-- ScheduleExecutionError, with what its message names
pub data ScheduleError : Type 0 where
  bad_prior_outputs time_budget_exceeded : ScheduleError
  no_executor : String → ScheduleError
  agent_failed : String → String → ScheduleError

-- AgentExecutionTiming
pub record Timing : Type 0 where
  pub submitted_at : String
  pub completed_at : String

-- What the clock and the threads do while a stage runs.
pub record StageWorld : Type 0 where
  pub now : ℕ
  pub started_at : String
  pub completed_at : String
  pub submitted : String → String
  pub completed : String → String
  pub arrivals : List String
  pub timed_out : Bool

-- context.get("prior_outputs", {}), which may be no mapping
pub data Supplied (Output : Type 0) : Type 0 where
  absent malformed : Supplied Output
  mapping : Dict String Output → Supplied Output

-- The dict that an executor gets: the base context with `prior_outputs` set.
pub record AgentContext (Base Output : Type 0) : Type 0 where
  pub base : Base
  pub prior_outputs : Dict String Output

pub record StageResult (Output : Type 0) : Type 0 where
  pub stage_index : ℕ
  pub agent_results : Dict String Output
  pub started_at : String
  pub completed_at : String
  pub agent_timings : Dict String Timing

-- agent_results and agent_timings while a stage runs
pub record Progress (Output : Type 0) : Type 0 where
  pub results : Dict String Output
  pub timings : Dict String Timing

abbrev pub Executors : Type 0 → Type 0 → Type 0
Executors Base Output = Dict String (AgentContext Base Output → Result String Output)

-- remaining = max(0.0, deadline - time.monotonic()), and the raise when nothing remains
unfoldable pub check_deadline : Option ℕ → ℕ → Result ScheduleError (Unit {0})
check_deadline none now = ok tt
check_deadline (some deadline) now = raise_if (deadline - now == 0) time_budget_exceeded

module _ {Base Output : Type 0} (executors : Executors Base Output) where
  -- if agent_id not in agent_executors: raise
  unfoldable pub check_executors : List String → Result ScheduleError (Unit {0})
  check_executors [] = ok tt
  check_executors (agent_id ∷ ids) = do
    raise_if (not (has executors agent_id)) (no_executor agent_id)
    check_executors ids

  -- future.result(), with the exception that an executor raises wrapped
  abbrev pub outcome : String → Result String Output → Result ScheduleError Output
  outcome agent_id (ok output) = ok output
  outcome agent_id (err reason) = err (agent_failed agent_id reason)

  abbrev pub call :
      Option (AgentContext Base Output → Result String Output)
      → String
      → AgentContext Base Output
      → Result ScheduleError Output
  call none agent_id ctx = err (no_executor agent_id)
  call (some executor) agent_id ctx = outcome agent_id (executor ctx)

  unfoldable pub run_agent : AgentContext Base Output → String → Result ScheduleError Output
  run_agent ctx agent_id = call (get executors agent_id) agent_id ctx

  -- future_map: agent_timings after the submissions
  unfoldable pub submit : StageWorld → List String → Dict String Timing → Dict String Timing
  submit world [] timings = timings
  submit world (agent_id ∷ ids) timings =
      submit world ids (
        put timings agent_id
          (record { submitted_at = world.submitted agent_id; completed_at = "" }))

  abbrev pub finish_timing : Option Timing → StageWorld → String → Timing
  finish_timing (some t) world agent_id = record t { completed_at = world.completed agent_id }
  finish_timing none world agent_id = record {
    submitted_at = "";
    completed_at = world.completed agent_id;
  }

  -- for future in as_completed(future_map, timeout=remaining)
  unfoldable pub gather :
      StageWorld
      → AgentContext Base Output
      → List String
      → Progress Output
      → Result ScheduleError (Progress Output)
  gather world ctx [] p = ok p
  gather world ctx (agent_id ∷ ids) p = do
    output ← run_agent ctx agent_id
    gather world ctx ids (record {
      results = put p.results agent_id output;
      timings = put p.timings agent_id (finish_timing (get p.timings agent_id) world agent_id);
    })

  -- the body of the loop over the stages, up to the results of its agents
  unfoldable pub run_stage :
      Option ℕ
      → StageWorld
      → AgentContext Base Output
      → List String
      → Result ScheduleError (Progress Output)
  run_stage deadline world ctx ids = do
    check_executors ids
    check_deadline deadline world.now
    p ← gather world ctx world.arrivals (record { results = []; timings = submit world ids [] })
    raise_if world.timed_out time_budget_exceeded
    ok p

  abbrev pub stage_result : ℕ → StageWorld → Progress Output → StageResult Output
  stage_result i world p = record {
    stage_index = i;
    agent_results = p.results;
    started_at = world.started_at;
    completed_at = world.completed_at;
    agent_timings = p.timings;
  }

  unfoldable pub run_stages :
      Option ℕ
      → (ℕ → StageWorld)
      → Base
      → ℕ
      → List (List String)
      → Dict String Output
      → Result ScheduleError (List (StageResult Output))
  run_stages deadline world base i [] prior = ok []
  run_stages deadline world base i (ids ∷ stages) prior = do
    p ← run_stage deadline (world i) (record { base = base; prior_outputs = prior }) ids
    rest ← run_stages deadline world base (suc i) stages (update prior p.results)
    ok (stage_result i (world i) p ∷ rest)

  -- MultiAgentScheduler.execute
  unfoldable pub execute :
      Option ℕ
      → (ℕ → StageWorld)
      → Base
      → Supplied Output
      → List (List String)
      → Result ScheduleError (List (StageResult Output))
  execute deadline world base absent stages = run_stages deadline world base 0 stages []
  execute deadline world base malformed stages = err bad_prior_outputs
  execute deadline world base (mapping prior) stages = run_stages deadline world base 0 stages prior
