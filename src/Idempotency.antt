-- ===== src/Idempotency.antt =====
-- packages/idempotency: the protocol of `IdempotencyInterceptor` for one key, and the store on
-- Postgres.
pub mod Protocol
pub mod Lock
pub mod AtMostOnce
pub mod Replay
pub mod PgStore
