-- ===== src/Resilience.antt =====
-- libs/holon_common/observability.py: the circuit breaker and the retry loop around outbound calls.
pub mod Breaker
pub mod Retry
mod Examples
