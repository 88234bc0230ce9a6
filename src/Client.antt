-- ===== src/Client.antt =====
-- packages/resilient-client: `ResilientClient` by its layers (errors, attempts, cache, coalescing,
-- headers) and the pool over several targets. Sockets, rate limiter and circuit breaker are those of
-- undici, Bottleneck and opossum: what they answer is given with each call.
pub mod Errors
pub mod Attempts
pub mod Cache
pub mod Options
pub mod Flights
pub mod Request
pub mod Selector
pub mod Pool
