-- ===== src/Coordinator.antt =====
-- src/specflow/coordinator: the workflow state machine and the revision lifecycle of a
-- multi-agent run, its scheduler and its plan.
pub mod StateMachine
pub mod Revision
pub mod Scheduler
pub mod Planning
