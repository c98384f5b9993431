-- ===== src/TokenBudget.antt =====
-- src/specflow/token_budget: a context is cut down to a budget of estimated tokens.
pub mod Models
pub mod Sections
pub mod Manager
mod Examples
