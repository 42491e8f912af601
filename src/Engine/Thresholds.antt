-- ===== src/Engine/Thresholds.antt =====
-- crates/engine/src/run/thresholds.rs, and `evaluate_report_thresholds` of crates/engine/src/run/mod.rs.
-- A check returns the violations that the source pushes; a text is its kind and the values in it.
pub mod Budgets
pub mod Verdict
mod Tests
use mcp_loadtest.Base.{
  is_some, ℕ, suc, ◌-◌, ◌+◌, Bool, true, false, not, ◌&&◌, ◌||◌, ltb, ◌==◌, List, [], ◌∷◌, ◌++◌,
  length, map, Option, none, some, String, if◌then◌else◌,
}
use mcp_loadtest.Base.Float.{F64, zero_f64, of_nat, div, sub, max_f64, lt, is_finite}
use mcp_loadtest.Base.Order.{str_ord}
use mcp_loadtest.Base.Map.{get}
use mcp_loadtest.Core.Metrics.{LatencyStats, ThroughputStats, ScenarioMetrics}
use mcp_loadtest.Core.Report.{
  ProcessSample, ProcessStats, ThresholdKind, p50_latency, p95_latency, p99_latency, p999_latency,
  error_rate, memory_growth_mb, Expected, latency_within, rate_within, growth_within, slope_within,
  tool_latency_within, Actual, latency_of, rate_of, growth_of, slope_of, tool_latency_of,
  no_latency_samples, no_outcomes, no_rss_samples, no_time_span, baseline_not_finite,
  peak_not_finite, slope_not_finite, sample_not_finite, field_not_finite, too_few_samples,
  rss_unavailable, no_tool_metrics, no_tool_samples, ThresholdViolation, Report,
}
use mcp_loadtest.Core.Thresholds.{ToolSlo, ThresholdsConfig}
use mcp_loadtest.Engine.LeakDetect.{detect_leak}

abbrev pub push : ThresholdKind → Expected → Actual → List ThresholdViolation
push kind expected actual = record { kind = kind; expected = expected; actual = actual } ∷ []

-- `if let Some(budget) = …`
abbrev pub given {ℓ} :
    {A : Type ℓ} → Option A → (A → List ThresholdViolation) → List ThresholdViolation
given none check = []
given (some budget) check = check budget

unfoldable pub check_latency : ThresholdKind → ℕ → ℕ → ℕ → List ThresholdViolation
check_latency kind budget actual sample_count =
    if sample_count == 0
    then push kind (latency_within budget) no_latency_samples
    else if ltb budget actual
    then push kind (latency_within budget) (latency_of actual)
    else []

unfoldable pub check_error_rate : ThroughputStats → F64 → List ThresholdViolation
check_error_rate t max_rate =
    let errors = t.total_requests - t.successful_requests in
    let actual = div (of_nat errors) (of_nat t.total_requests) in
    if t.total_requests == 0
    then push error_rate (rate_within max_rate) no_outcomes
    else if lt max_rate actual
    then push error_rate (rate_within max_rate) (rate_of actual)
    else []

-- `iter().position(p)`, counted from `i`.
abbrev pub position {ℓ} : {A : Type ℓ} → (A → Bool) → ℕ → List A → Option ℕ
position p i [] = none
position p i (x ∷ xs) = if p x then some i else position p (suc i) xs

abbrev pub push_unavailable : Expected → Actual → List ThresholdViolation
push_unavailable expected actual = push memory_growth_mb expected actual

abbrev growth_detail : F64 → F64 → Option ℕ → Actual
growth_detail peak baseline non_finite_sample =
    if not (is_finite baseline)
    then baseline_not_finite baseline
    else if not (is_finite peak)
    then peak_not_finite peak
    else elim non_finite_sample [ some index ↦ sample_not_finite index | none ↦ rss_unavailable ]

abbrev pub observed_growth : ProcessStats → F64
observed_growth p = max_f64 (sub p.peak_rss_mb p.baseline_rss_mb) zero_f64

unfoldable pub check_memory_growth : ProcessStats → F64 → List ThresholdViolation
check_memory_growth p max_growth =
    let non_finite_sample = position (λ s. not (is_finite s.rss_mb)) 0 p.samples in
    if length p.samples == 0
    then push_unavailable (growth_within max_growth) no_rss_samples
    else if not (is_finite p.peak_rss_mb)
        || not (is_finite p.baseline_rss_mb)
        || is_some non_finite_sample
    then push_unavailable (growth_within max_growth)
        (growth_detail p.peak_rss_mb p.baseline_rss_mb non_finite_sample)
    else if lt max_growth (observed_growth p)
    then push memory_growth_mb (growth_within max_growth) (growth_of (observed_growth p))
    else []

-- `MIN_RSS_SLOPE_SAMPLES`
abbrev pub min_rss_slope_samples : ℕ
min_rss_slope_samples = 3

abbrev pub is_bad_sample : ProcessSample → Bool
is_bad_sample s = not (is_finite s.at_secs) || not (is_finite s.rss_mb)

-- The first sample with a value that is not finite, and which of its values are not.
pub find_bad : ℕ → List ProcessSample → Option Actual
find_bad i [] = none
find_bad i (s ∷ rest) =
    if is_bad_sample s
    then some (field_not_finite i (not (is_finite s.at_secs)) (not (is_finite s.rss_mb)))
    else find_bad (suc i) rest

abbrev pub series : List ProcessSample → List (F64 × F64)
series samples = map (λ (s : ProcessSample). (s.at_secs, s.rss_mb)) samples

abbrev pub judge_slope : F64 → Option F64 → List ThresholdViolation
judge_slope max_slope none = push_unavailable (slope_within max_slope) no_time_span
judge_slope max_slope (some slope) =
    if not (is_finite slope)
    then push_unavailable (slope_within max_slope) (slope_not_finite slope)
    else if lt max_slope slope
    then push memory_growth_mb (slope_within max_slope) (slope_of slope)
    else []

unfoldable pub check_rss_slope : F64 → List ProcessSample → List ThresholdViolation
unfolding find_bad
check_rss_slope max_slope samples =
    if length samples == 0
    then push_unavailable (slope_within max_slope) no_rss_samples
    else elim (find_bad 0 samples) [
      | some bad ↦ push_unavailable (slope_within max_slope) bad
      | none ↦
          if ltb (length samples) min_rss_slope_samples
          then push_unavailable (slope_within max_slope) (too_few_samples (length samples))
          else judge_slope max_slope (detect_leak (series samples))
    ]

unfoldable pub evaluate_thresholds : ThresholdsConfig → Report → List ThresholdViolation
evaluate_thresholds t report =
    let l = report.metrics.latency in
    given t.p50_latency (λ b. check_latency p50_latency b l.p50 l.count)
    ++ (given t.p95_latency (λ b. check_latency p95_latency b l.p95 l.count)
        ++ (given t.p99_latency (λ b. check_latency p99_latency b l.p99 l.count)
            ++ (given t.p999_latency (λ b. check_latency p999_latency b l.p999 l.count)
                ++ (given t.error_rate (λ b. check_error_rate report.metrics.throughput b)
                    ++ (given t.memory_growth_mb (λ b. check_memory_growth report.process b)
                        ++ given t.rss_leak_mb_per_sec
                            (λ b. check_rss_slope b report.process.samples))))))

abbrev pub judge_tool : ToolSlo → Option ScenarioMetrics → List ThresholdViolation
judge_tool slo none =
    push p99_latency (tool_latency_within slo.p99_latency slo.tool) (no_tool_metrics slo.tool)
judge_tool slo (some metrics) =
    if metrics.latency.count == 0
    then push p99_latency (tool_latency_within slo.p99_latency slo.tool) (no_tool_samples slo.tool)
    else if ltb slo.p99_latency metrics.latency.p99
    then push p99_latency (tool_latency_within slo.p99_latency slo.tool)
        (tool_latency_of metrics.latency.p99 slo.tool)
    else []

unfoldable pub evaluate_tool_slos :
    List ToolSlo → List (String × ScenarioMetrics) → List ThresholdViolation
evaluate_tool_slos [] per_tool = []
evaluate_tool_slos (slo ∷ rest) per_tool =
    judge_tool slo (get slo.tool per_tool) ++ evaluate_tool_slos rest per_tool

unfoldable pub evaluate_report_thresholds :
    ThresholdsConfig → Report → List (String × ScenarioMetrics) → Report
evaluate_report_thresholds config report per_tool = record report {
  threshold_violations =
      evaluate_thresholds config report ++ evaluate_tool_slos config.tool_slos per_tool;
}
