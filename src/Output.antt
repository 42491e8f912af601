-- ===== src/Output.antt =====
-- The output crate: crates/output/src.
pub mod History
