-- ===== src/Workers.antt =====
-- src/specflow/workers: the workers of a run of one agent. The redaction of a text by regular
-- expressions is an argument.
pub mod Models
pub mod Registry
pub mod Adapter
mod Examples
