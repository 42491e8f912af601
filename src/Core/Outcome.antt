-- ===== src/Core/Outcome.antt =====
-- crates/core/src/outcome.rs
use mcp_loadtest.Base.{ℕ, String, List, []}

pub record ScenarioOutcome : Type 0 where
  pub total_calls : ℕ
  pub successful_calls : ℕ
  pub hang_count : ℕ  -- u32
  pub deadlock_count : ℕ  -- u32
  pub error_count : ℕ
  pub divergence_count : ℕ
  pub incomplete_worker_count : ℕ
  pub teardown_failure_count : ℕ
  pub notes : List String
  pub hung_for_ms : List ℕ

abbrev pub no_outcome : ScenarioOutcome
no_outcome = record {
  total_calls = 0;
  successful_calls = 0;
  hang_count = 0;
  deadlock_count = 0;
  error_count = 0;
  divergence_count = 0;
  incomplete_worker_count = 0;
  teardown_failure_count = 0;
  notes = [];
  hung_for_ms = [];
}
