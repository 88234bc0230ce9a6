-- ===== src/Resilience.antt =====
-- packages/resilience/src and packages/resilient-client/src/backoff.ts: the jittered backoff, the
-- retry loop, the per-tenant limiter and the circuit breaker of a dependency.
pub mod Backoff
pub mod Retry
