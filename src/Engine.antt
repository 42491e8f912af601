-- ===== src/Engine.antt =====
-- The engine crate: crates/engine/src.
pub mod BreakingPoint
pub mod RaceDetector
pub mod LeakDetect
pub mod Thresholds
pub mod Pool
