-- ===== src/Kafka.antt =====
-- internal/kafka: what the agent learns of the brokers.
pub mod Capabilities
pub mod Hooks
