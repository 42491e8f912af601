-- ===== src/Distributed.antt =====
-- crates/distributed/src: one load run spread over SSH workers.
pub mod Plan
pub mod Evidence
pub mod Wire
pub mod Samples
pub mod Controller
pub mod Worker
pub mod Session
pub mod Aggregate
pub mod Shard
pub mod Cohort
pub mod Policy
