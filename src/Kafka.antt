-- ===== src/Kafka.antt =====
-- packages/kafka/src: the error registry, the reconnect loop, the consumer runner, the producer.
pub mod Errors
pub mod Reconnect
pub mod Consumer
pub mod Producer
