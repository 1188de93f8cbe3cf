-- ===== src/Reorg/Processor.antt =====
-- internal/reorg/processor.go
pub mod Steps
pub mod Run
pub mod Loop
pub mod Order
pub mod Settled
pub mod Retries
pub mod Cleaning
pub mod Tests
