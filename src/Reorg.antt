-- ===== src/Reorg.antt =====
-- internal/reorg
pub mod Fork
pub mod Detector
pub mod Processor
