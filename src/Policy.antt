-- ===== src/Policy.antt =====
-- src/specflow/policy/: the taxonomy of errors, the limits of a run, and what enforces them.
pub mod Errors
pub mod Models
pub mod RuntimeGuard
pub mod Budget
mod Examples
