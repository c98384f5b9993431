-- ===== src/Llm.antt =====
-- src/specflow/llm: the requests to a provider, and the circuit breaker that guards its calls.
pub mod Models
pub mod Resilience
