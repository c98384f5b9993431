-- ===== src/Lib.antt =====
-- SpecFlow Agent turns a requirement into reviewed engineering artifacts. A workflow engine fixes the
-- order of its phases; an executor or a coordinator drives it and calls agents, which call a model
-- provider behind a circuit breaker; policies bound what a run may spend. This library models that
-- core as it is written in src/specflow/ and proves what makes it correct.
--
-- Parts, by file:
-- Prelude.antt: tests on numbers, lists, Python's dict as an association list in insertion order,
--   sorting, integers, text, equality as an instance, and exceptions as results.
-- ApiSecurity.antt: api_security.py, the limiter of runs. Its semaphore and its window have locks of
--   their own, so threads interleave between the steps of `acquire`, and the clock is read outside
--   them, so times come in any order.
-- Policy.antt: policy/errors.py, the codes of errors and their categories; policy/models.py and
--   policy/validator.py, the limits of a run; policy/runtime_guard.py and policy/budget.py, which
--   count what a run uses.
-- Agents.antt: agents/models.py, the frozen dataclasses with the checks of their constructors;
--   agents/registry.py; and agents/adapter.py, the runner that asks a provider with retries and
--   validates what it answers by the model that Schema has for the agent.
-- Llm.antt: llm/models.py, the requests to a provider, and llm/resilience.py. `before_attempt` and
--   `finish` are `_before_attempt` and `_finish`. Entries are shared objects, so they stand in a store and the dict holds their places. The lock
--   makes a method atomic: threads are a list of events, each the start or the end of an attempt.
-- Coordinator.antt: coordinator/state_machine.py, the state machine of a multi-agent run;
--   coordinator/revision.py, which grants revisions; coordinator/scheduler.py, whose threads are an
--   order of completion for each stage; and coordinator/coordinator.py, whose `plan` composes the
--   planner, the compiler, the validator and the enricher.
-- In Plan.antt: plan/compiler.py, which sorts agents into stages by Kahn's algorithm,
--   plan/validator.py, which checks the result, plan/planner.py, and plan/enricher.py, which asks a
--   provider for a brief of each task. The hash of a structure is a parameter of `compile`.
-- SingleFlight.antt: single_flight.py. The first run on a key owns its entry, later ones wait for the
--   result. Entries are shared, hence in a store; threads are a list of events.
-- Workflow.antt: workflow/, the phases of a run of one agent, its snapshots, and `restore`.
-- Executor.antt: executor/engine.py, which runs a handler for each phase of Workflow and moves
--   that engine. A handler is any function from its context to the outcome of its call.
-- Fallback.antt: fallback/, retries with a backoff, the repair of JSON and the degraded baseline. The
--   n-th call of an operation may answer as it likes.
-- Tools.antt: tools/, the models of calls and results, their sanitization, the registry and the
--   executor of tools. A tool is a function from a call to a reply.
-- Schema.antt: schema/registry.py and schema/factory.py, the schemas that the validator knows.
-- Handoff.antt: handoff/, the checks of a payload before the next agent gets it.
-- Workers.antt: workers/, the workers of a run of one agent, their registry and their adapter to
--   Executor.
-- TokenBudget.antt: token_budget/, which cuts sections out of a context of context_builder/models.py
--   until it fits a budget.
--
-- Methods that change an object take it and return the new one; a method that raises after a write
-- returns the object beside its result, else the object of a raise is the old one. Clocks and
-- identifiers are arguments. `execute_until` bounds by fuel the loop of
-- `execute_until_complete`, which has no bound in the source, and five rounds are enough; `levels` has
-- one round for each agent and one more, as each round but the last finishes an agent.
-- Regular expressions, SHA-256, HTTP and the file system are parameters or not modelled, since they
-- are not code of this repository; the pattern of `safe_code` is written out as a function.
mod Prelude
pub mod ApiSecurity
pub mod Policy
pub mod Agents
pub mod Llm
pub mod Plan
pub mod SingleFlight
pub mod Coordinator
pub mod Workflow
pub mod Executor
pub mod Fallback
pub mod Tools
pub mod Schema
pub mod Handoff
pub mod Workers
pub mod TokenBudget
