-- ===== src/Execution.antt =====
-- Dispatch to a provider.
pub mod Breaker
mod Examples
