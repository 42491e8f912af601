-- ===== src/Output/History.antt =====
-- Baseline history: crates/output/src/history.
pub mod Types
pub mod Series
pub mod Trend
