-- ===== src/Output/History/Types.antt =====
-- The values of crates/output/src/history/types.rs, and crates/output/src/regression.rs.
use mcp_loadtest.Base.{ℕ, Bool, true, List, Option, some, String}
use mcp_loadtest.Base.Float.{F64, of_nat, div}

pub record HistorySample : Type 0 where
  pub schema_version : ℕ
  pub series : String
  pub run_id : String
  pub started_at : String
  pub scenario : String
  pub protocol_version : Option String
  pub execution_fingerprint : Option String
  pub p50_ms : F64
  pub p95_ms : F64
  pub p99_ms : F64
  pub requests_per_sec : F64
  pub error_rate_pct : F64
  pub deadlock_count : ℕ
  pub hang_count : ℕ
  pub passed : Bool

pub record RegressionThresholds : Type 0 where
  pub p99_pct : F64
  pub error_rate_pp : F64
  pub deadlock_zero_tolerance : Bool

-- `RegressionThresholds::default`: 10 % and 0.5 points.
abbrev pub default_regression : RegressionThresholds
default_regression = record {
  p99_pct = of_nat 10;
  error_rate_pp = div (of_nat 1) (of_nat 2);
  deadlock_zero_tolerance = true;
}

pub record TrendPolicy : Type 0 where
  pub window : ℕ
  pub min_samples : ℕ
  pub regression : RegressionThresholds
  pub max_rps_drop_pct : Option F64

abbrev pub default_policy : TrendPolicy
default_policy = record {
  window = 10;
  min_samples = 3;
  regression = default_regression;
  max_rps_drop_pct = some (of_nat 10);
}

pub data TrendStatus : Type 0 where
  warming_up clean regressed : TrendStatus

pub data TrendDirection : Type 0 where
  regressed improved neutral : TrendDirection

pub record TrendMetric : Type 0 where
  pub metric : String
  pub baseline : F64
  pub current : F64
  pub change : F64
  pub change_pct : Option F64
  pub direction : TrendDirection
  pub gating : Bool

pub record TrendReport : Type 0 where
  pub series : String
  pub current_run_id : String
  pub status : TrendStatus
  pub baseline_sample_count : ℕ
  pub required_sample_count : ℕ
  pub metrics : List TrendMetric
  pub regressions : List TrendMetric
  pub has_regression : Bool

-- `HistoryError`, without the errors of the file system and of JSON.
pub data Error : Type 0 where
  invalid_series : String → Error
  invalid_run_id : Error
  invalid_sample : String → Error
  invalid_numeric : String → Error
  unsupported_schema : ℕ → Error
  invalid_policy : String → Error
