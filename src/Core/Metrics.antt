-- ===== src/Core/Metrics.antt =====
-- crates/core/src/metrics/types.rs. A `Duration` is its number of nanoseconds.
use mcp_loadtest.Base.{ℕ, Bool, true, false}
use mcp_loadtest.Base.Float.{F64}

pub data CallOutcome : Type 0 where
  success hang deadlock timeout server_error protocol_error crash : CallOutcome
  malformed disconnected cancelled expected_rejection : CallOutcome

unfoldable pub contributes_to_latency : CallOutcome → Bool
contributes_to_latency success = true
contributes_to_latency hang = true
contributes_to_latency deadlock = true
contributes_to_latency _ = false

pub record LatencyStats : Type 0 where
  pub p50 : ℕ
  pub p95 : ℕ
  pub p99 : ℕ
  pub p999 : ℕ
  pub mean : ℕ
  pub min : ℕ
  pub max : ℕ
  pub count : ℕ

abbrev pub no_latency : LatencyStats
no_latency = record { p50 = 0; p95 = 0; p99 = 0; p999 = 0; mean = 0; min = 0; max = 0; count = 0 }

pub record ThroughputStats : Type 0 where
  pub total_requests : ℕ
  pub successful_requests : ℕ
  pub requests_per_sec : F64

pub record OutcomeCounts : Type 0 where
  pub success : ℕ
  pub hang : ℕ
  pub deadlock : ℕ
  pub timeout : ℕ
  pub server_error : ℕ
  pub protocol_error : ℕ
  pub crash : ℕ
  pub malformed : ℕ
  pub disconnected : ℕ
  pub cancelled : ℕ
  pub expected_rejection : ℕ

abbrev pub no_outcomes : OutcomeCounts
no_outcomes = record {
  success = 0;
  hang = 0;
  deadlock = 0;
  timeout = 0;
  server_error = 0;
  protocol_error = 0;
  crash = 0;
  malformed = 0;
  disconnected = 0;
  cancelled = 0;
  expected_rejection = 0;
}

pub record ScenarioMetrics : Type 0 where
  pub latency : LatencyStats
  pub throughput : ThroughputStats
  pub outcomes : OutcomeCounts
