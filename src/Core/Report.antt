-- ===== src/Core/Report.antt =====
-- crates/core/src/report.rs: what a run leaves, and its verdict. Times are numbers of nanoseconds.
use mcp_loadtest.Base.{
  ℕ, Bool, ◌&&◌, ◌||◌, not, ◌==◌, ltb, leb, List, [], ◌∷◌, any, is_empty, Option, String, str_eq,
}
use mcp_loadtest.Base.Float.{F64}
use mcp_loadtest.Core.Metrics.{ScenarioMetrics, OutcomeCounts}
use mcp_loadtest.Core.Outcome.{ScenarioOutcome}
use mcp_loadtest.Core.Coverage.{CoverageReport}

pub record ServerInfo : Type 0 where
  pub command : String
  pub args : List String
  pub pid : Option ℕ
  pub protocol_version : Option String

pub record ProcessSample : Type 0 where
  pub at_secs : F64
  pub rss_mb : F64
  pub cpu_pct : F64
  pub fd : ℕ
  pub threads : ℕ

pub record ProcessStats : Type 0 where
  pub peak_rss_mb : F64
  pub final_rss_mb : F64
  pub baseline_rss_mb : F64
  pub avg_cpu_pct : F64
  pub peak_fd : ℕ
  pub final_fd : ℕ
  pub peak_threads : ℕ
  pub final_threads : ℕ
  pub samples : List ProcessSample

pub data ThresholdKind : Type 0 where
  p50_latency p95_latency p99_latency p999_latency error_rate memory_growth_mb : ThresholdKind

-- The text of what was expected: its kind and the values that it is formatted from.
pub data Expected : Type 0 where
  latency_within : (budget : ℕ) → Expected
  rate_within : (budget : F64) → Expected
  growth_within : (budget : F64) → Expected
  slope_within : (budget : F64) → Expected
  tool_latency_within : (budget : ℕ) (tool : String) → Expected

-- The text of what was found instead, in the same manner.
pub data Actual : Type 0 where
  latency_of : ℕ → Actual
  rate_of growth_of slope_of : F64 → Actual
  tool_latency_of : ℕ → String → Actual
  no_latency_samples no_outcomes no_rss_samples no_time_span : Actual
  baseline_not_finite peak_not_finite slope_not_finite : F64 → Actual
  sample_not_finite : (index : ℕ) → Actual
  field_not_finite : (index : ℕ) (timestamp rss : Bool) → Actual
  too_few_samples : ℕ → Actual
  rss_unavailable : Actual
  no_tool_metrics no_tool_samples : (tool : String) → Actual

pub record ThresholdViolation : Type 0 where
  pub kind : ThresholdKind
  pub expected : Expected
  pub actual : Actual

pub record Report : Type 0 where
  pub run_id : String
  pub started_at : ℕ
  pub duration : ℕ
  pub scenario_name : String
  pub server_info : ServerInfo
  pub metrics : ScenarioMetrics
  pub process : ProcessStats
  pub scenario_outcome : ScenarioOutcome
  pub trace_path : Option String
  pub threshold_violations : List ThresholdViolation
  pub coverage : Option CoverageReport

-- Any of the outcomes that the recorder counts as a failure of the run.
abbrev pub has_hard_recorded_failure : OutcomeCounts → Bool
has_hard_recorded_failure recorded =
    any (λ count. ltb 0 count)
      (recorded.deadlock ∷ recorded.timeout ∷ recorded.protocol_error ∷ recorded.crash
        ∷ recorded.malformed ∷ recorded.disconnected ∷ recorded.cancelled ∷ [])

abbrev pub is_diagnostic : String → Bool
is_diagnostic name =
    str_eq name "race_check" || str_eq name "deadlock_probe" || str_eq name "fuzzer"

abbrev pub diagnostic_complete : Report → Bool
diagnostic_complete r =
    not (is_diagnostic r.scenario_name)
    || (r.scenario_outcome.error_count == 0
        && r.scenario_outcome.hang_count == 0
        && r.metrics.outcomes.hang == 0)

unfoldable pub passed : Report → Bool
passed r =
    is_empty r.threshold_violations
    && ltb 0 r.scenario_outcome.total_calls
    && ltb 0 r.scenario_outcome.successful_calls
    && leb r.scenario_outcome.successful_calls r.scenario_outcome.total_calls
    && r.scenario_outcome.deadlock_count == 0
    && r.scenario_outcome.divergence_count == 0
    && r.scenario_outcome.incomplete_worker_count == 0
    && r.scenario_outcome.teardown_failure_count == 0
    && diagnostic_complete r
    && not (has_hard_recorded_failure r.metrics.outcomes)
