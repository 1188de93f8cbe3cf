-- ===== src/Consumer.antt =====
-- internal/consumer.
pub mod StateMachine
pub mod ReorgHandler
pub mod Webhook
pub mod Idempotency
pub mod Business
