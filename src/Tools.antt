-- ===== src/Tools.antt =====
-- src/specflow/tools: what a tool is called with and what it returns, and the executor of tools.
pub mod Names
pub mod Sanitization
pub mod Models
pub mod Registry
pub mod Executor
mod Examples
