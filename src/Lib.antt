-- ===== src/Lib.antt =====
-- A verification of nodejs-basics, a TypeScript monorepo of NestJS services (apps/) and the packages
-- that they share (packages/).
--
-- A write of the api stores a task and an event of it in one transaction (apps/api, packages/database);
-- the outbox relay publishes the events to Kafka (packages/outbox, packages/kafka), where a consumer
-- runner handles them, retries and parks what it cannot handle; the worker's handler puts jobs into a
-- queue (apps/worker). Around them: an HTTP client with retries, a cache and coalescing, and a pool of
-- such clients (packages/resilient-client), retries with jittered backoff (packages/resilience),
-- idempotent POSTs (packages/idempotency), a request budget that the client tells the next service
-- (packages/common), the configuration (packages/config), readiness (packages/observability), log
-- levels and redaction (packages/logger), and the migrations of the database (apps/migrate).
--
-- Prelude            shared names: tests on numbers, lists, maps as association lists, integers, texts as
--                    lists of code units, decimal texts.
-- Kafka.Errors       packages/kafka/src/kafka-errors.ts: `KAFKA_SEND_ERRORS`, `toKafkaSendError`.
-- Kafka.Reconnect    packages/kafka/src/reconnect.ts: `Reconnect` over events (calls, timers).
-- Kafka.Consumer     packages/kafka/src/kafka-consumer.ts: `handleMessage` is Handle, its dead-letter
--                    record Parking; `connect`, `stop` and `assertRunning` are Lifecycle.
-- Kafka.Producer     packages/kafka/src/kafka.provider.ts: the connection, one send, and in Waiting
--                    the loop `sendWaiting`.
-- Outbox             packages/outbox/src/outbox.relay.ts: `relayBatch`, `tick`, `refreshStats`.
-- Resilience         packages/resilient-client/src/backoff.ts: `computeJitteredDelay`;
--                    packages/resilience/src/retry-policy.builder.ts: `withRetry`.
-- Client             packages/resilient-client/src: `OutboundError` in Errors, the attempts of a call in
--                    Attempts, headers in Options, the stores of responses in Cache, coalescing in
--                    Flights, `request` in Request; `matchesSelector` in Selector, `ResilientPool` in
--                    Pool.
-- Idempotency        packages/idempotency/src: `IdempotencyInterceptor.execute` in Protocol, and
--                    `PgIdempotencyStore` in PgStore.
-- Tasks              apps/api/src/modules/tasks: `SqlTaskRepository` and `TaskUseCase`, with the
--                    transaction of packages/database/src/pg-unit-of-work.service.ts.
-- Migrate            apps/migrate/src/migrate.ts: `loadMigrations`, `migrate`.
-- LogLevel           packages/logger/src/log-level.ts: `LogLevel`, `formatDuration`.
-- Readiness          packages/observability/src/readiness.service.ts: `ReadinessService`.
-- Concurrency        packages/resilient-client/src/resilient-client.ts: `AdaptiveConcurrencyLimiter`.
-- Deadline           packages/common/src/utils/deadline.ts: the request budget.
-- Config             packages/config/src: the merge of config.loader.ts in Load and its hints in Distance;
--                    the parsers of config.values.ts in Values, its readers in Checks; `load` with its
--                    checks and integrations.ts in Startup.
-- Worker             apps/worker/src/tasks/task-events.consumer.ts: `TaskEventsConsumer.handle`.
-- Redact             packages/logger/src/redact.ts: `redact`, `redactUrl`, `isSecretKey`.
-- Tests              runs of the models on concrete inputs.
--
-- State is a record and an operation a function on it. An asynchronous operation is cut at its
-- awaits, and what may come between is a list of events; what the outside does (a broker, a database,
-- a clock, a random draw) is an argument. Times are whole milliseconds or seconds, as in the source.
-- Two loops have no bound of their own in the code and run on fuel here: `sendWaiting` and
-- `withRetry`; with fuel above the wait budget, or above the number of retries, they end. The wait of
-- the pool's shutdown takes as many looks as its timeout has milliseconds, far more than it needs.
-- Calls of the worker's handler come between each other at their awaits, as partitions are handled side
-- by side; runs of the migrations do not, since each holds an advisory lock, whose own failure is
-- modelled. Numbers are exact but for the delays of the backoff, where the rounding of doubles is a
-- parameter; case maps are those of ASCII.
-- SQL statements are functions on the table that they name, and a transaction that rolls back leaves
-- it as it was.
--
-- Not modelled: logs, metrics, spans and their context; the set-up of Nest, of the clients of Kafka,
-- PostgreSQL and Valkey and of HTTP servers; the registry of environment variables, which is an
-- argument of the loader here; generated contracts; scripts, benchmarks and tests.
pub mod Prelude
pub mod Kafka
pub mod Outbox
pub mod Resilience
pub mod Idempotency
pub mod LogLevel
pub mod Readiness
pub mod Concurrency
pub mod Deadline
pub mod Tasks
pub mod Migrate
pub mod Client
pub mod Config
pub mod Worker
pub mod Redact
mod Tests
