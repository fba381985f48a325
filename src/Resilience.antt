-- ===== src/Resilience.antt =====
-- The package noema/resilience: circuit breaker, retry policy and their combination.
pub mod Breaker
pub mod Retry
mod Tests
