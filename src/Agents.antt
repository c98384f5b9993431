-- ===== src/Agents.antt =====
-- src/specflow/agents: the roles, identities and policies of the agents, and their runner.
pub mod Models
pub mod Registry
pub mod Prompts
pub mod Runner
