-- ===== src/Tests.antt =====
-- Concrete runs of the models, by part.
mod Kafka
mod Consumer
mod Outbox
mod Resilience
mod Idempotency
mod Services
mod Tasks
mod Migrate
mod Client
mod Config
mod Worker
mod Startup
