-- ===== src/Plan.antt =====
-- src/specflow/plan/: the plan of a run of many agents.
pub mod Models
pub mod Briefs
pub mod Enricher
pub mod Compiler
pub mod Validator
pub mod Planner
mod Examples
