-- ===== src/Scheduler.antt =====
-- internal/scheduler.
pub mod Sharding
pub mod Watermark
pub mod Scanner
pub mod Lifecycle
pub mod Tasks
pub mod Worker
pub mod ReorgHandler
pub mod Manager
