-- ===== src/Core.antt =====
-- The core crate: crates/core/src.
pub mod Metrics
pub mod Outcome
pub mod Coverage
pub mod Report
pub mod Thresholds
pub mod Recorder
