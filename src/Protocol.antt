-- ===== src/Protocol.antt =====
-- The protocol crate: crates/protocol/src.
pub mod HangDetector
