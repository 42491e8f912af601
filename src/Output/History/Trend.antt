-- ===== src/Output/History/Trend.antt =====
-- crates/output/src/history/trend.rs: a run against the median of the latest comparable runs. Texts of
-- equal `started_at` and `run_id` are compared by code points, as their bytes are.
pub mod Evidence
pub mod Gates
pub mod Report
mod Tests
use mcp_loadtest.Base.{
  ℕ, ◌-◌, ◌/◌, ◌%◌, Bool, true, false, not, ◌&&◌, ◌||◌, List, [], ◌∷◌, map, filter, length,
  is_empty, any, Option, none, some, String, str_eq, ltb, leb, ◌==◌, if◌then◌else◌, Result, ok, err,
  ◌>>=◌, ◌>>◌, reject, get_elem?,
}
use Prim.Native.Nat.{Ordering}
use mcp_loadtest.Base.Float.{
  F64, nan, zero_f64, of_nat, lt, le_zero, is_finite, sub, add, mul, div, negate,
}
use mcp_loadtest.Base.FloatOrder.{total_cmp, float_ord}
use mcp_loadtest.Base.Order.{str_ord}
use mcp_loadtest.Base.Pairs.{pair_ord}
use mcp_loadtest.Base.Sorting.{sort_by}
use mcp_loadtest.Output.History.Types.{
  HistorySample, RegressionThresholds, TrendPolicy, TrendStatus, warming_up, clean, TrendDirection,
  improved, neutral, TrendMetric, TrendReport, Error, invalid_sample, invalid_numeric,
  unsupported_schema, invalid_policy,
}
use mcp_loadtest.Output.History.Series.{validate_series_name, validate_run_id}

abbrev is_bad_number : F64 → Bool
is_bad_number x = not (is_finite x) || lt x zero_f64

-- `as_deref().is_some_and(str::is_empty)`
abbrev is_blank : Option String → Bool
is_blank none = false
is_blank (some s) = str_eq s ""

unfoldable pub validate_sample : HistorySample → Result Error (Unit {0})
validate_sample s = do
  reject (not (s.schema_version == 1)) (unsupported_schema s.schema_version)
  validate_series_name s.series
  validate_run_id s.run_id
  reject (str_eq s.started_at "") (invalid_sample "started_at is empty")
  reject (str_eq s.scenario "") (invalid_sample "scenario is empty")
  reject (is_blank s.execution_fingerprint) (invalid_sample "execution_fingerprint is empty")
  reject (is_bad_number s.p50_ms) (invalid_numeric "p50_ms")
  reject (is_bad_number s.p95_ms) (invalid_numeric "p95_ms")
  reject (is_bad_number s.p99_ms) (invalid_numeric "p99_ms")
  reject (is_bad_number s.requests_per_sec) (invalid_numeric "requests_per_sec")
  reject (is_bad_number s.error_rate_pct) (invalid_numeric "error_rate_pct")
  reject (lt (of_nat 100) s.error_rate_pct) (invalid_numeric "error_rate_pct")
  ok tt

abbrev is_bad_limit : F64 → Bool
is_bad_limit x = not (is_finite x) || le_zero x

abbrev is_bad_drop : Option F64 → Bool
is_bad_drop none = false
is_bad_drop (some x) = is_bad_limit x

unfoldable pub validate_policy : TrendPolicy → Result Error (Unit {0})
validate_policy p = do
  reject (p.window == 0) (invalid_policy "window must be greater than zero")
  reject (p.min_samples == 0 || ltb p.window p.min_samples)
      (invalid_policy "min_samples must be in 1..=window")
  reject (is_bad_limit p.regression.p99_pct)
      (invalid_policy "p99 regression threshold must be finite and greater than zero")
  reject (is_bad_limit p.regression.error_rate_pp)
      (invalid_policy "error-rate regression threshold must be finite and greater than zero")
  reject (is_bad_drop p.max_rps_drop_pct)
      (invalid_policy "throughput regression threshold must be finite and greater than zero")
  ok tt

abbrev same_option : Option String → Option String → Bool
same_option none none = true
same_option (some s) (some t) = str_eq s t
same_option _ _ = false

unfoldable pub same_cohort : HistorySample → HistorySample → Bool
same_cohort s t =
    str_eq s.series t.series
    && str_eq s.scenario t.scenario
    && same_option s.protocol_version t.protocol_version
    && same_option s.execution_fingerprint t.execution_fingerprint

unfoldable pub is_eligible : HistorySample → HistorySample → Bool
is_eligible current s = s.passed && not (str_eq s.run_id current.run_id) && same_cohort s current

abbrev pub started : HistorySample → String × String
started s = (s.started_at, s.run_id)

abbrev pub drop {ℓ} : {A : Type ℓ} → ℕ → List A → List A
drop n [] = []
drop Prim.Native.Nat.zero (x ∷ xs) = x ∷ xs
drop (Prim.Native.Nat.suc n) (x ∷ xs) = drop n xs

-- The latest eligible samples, as many as the window holds.
unfoldable pub baseline : List HistorySample → HistorySample → ℕ → List HistorySample
baseline samples current window =
    let eligible = sort_by started (filter (is_eligible current) samples) in
    drop (length eligible - window) eligible

-- An element of a list that has it; the source's index would panic elsewhere.
abbrev value_at : List F64 → ℕ → F64
value_at xs i = elim (get_elem? xs i) [ none ↦ nan | some x ↦ x ]

unfoldable pub median : List F64 → F64
median values =
    let sorted = sort_by (λ x. x) values in
    let middle = length sorted / 2 in
    if length sorted % 2 == 0
    then div (add (value_at sorted (middle - 1)) (value_at sorted middle)) (of_nat 2)
    else value_at sorted middle

abbrev pub change_in_percent : F64 → F64 → F64
change_in_percent baseline current = mul (div (sub current baseline) baseline) (of_nat 100)

unfoldable pub percentage_change : F64 → F64 → Option F64
percentage_change baseline current =
    if lt zero_f64 baseline then some (change_in_percent baseline current) else none

abbrev unwrap_or : Option F64 → F64 → F64
unwrap_or none x = x
unwrap_or (some y) x = y

unfoldable pub trend_metric : String → F64 → F64 → TrendDirection → Bool → TrendMetric
trend_metric metric baseline current direction gating = record {
  metric = metric;
  baseline = baseline;
  current = current;
  change = sub current baseline;
  change_pct = percentage_change baseline current;
  direction = direction;
  gating = gating;
}

abbrev by_order : Ordering → TrendDirection
by_order Ordering.gt = TrendDirection.regressed
by_order Ordering.lt = improved
by_order Ordering.eq = neutral

unfoldable pub informational_ascending : String → F64 → F64 → TrendMetric
informational_ascending metric baseline current =
    trend_metric metric baseline current (by_order (total_cmp current baseline)) false

-- Above the threshold is worse, below its negative is improved.
abbrev ascending : F64 → F64 → TrendDirection
ascending change threshold =
    if lt threshold change
    then TrendDirection.regressed
    else if lt change (negate threshold)
    then improved
    else neutral

unfoldable pub relative_ascending : String → F64 → F64 → F64 → TrendMetric
relative_ascending metric baseline current threshold_pct =
    trend_metric metric baseline current
      (if le_zero baseline
        then neutral
        else ascending (unwrap_or (percentage_change baseline current) zero_f64) threshold_pct)
      true

abbrev throughput_direction : F64 → F64 → Option F64 → TrendDirection
throughput_direction baseline current none = neutral
throughput_direction baseline current (some threshold) =
    let change = unwrap_or (percentage_change baseline current) zero_f64 in
    if lt zero_f64 baseline
    then if lt change (negate threshold)
      then TrendDirection.regressed
      else if lt threshold change
      then improved
      else neutral
    else neutral

abbrev is_given : Option F64 → Bool
is_given none = false
is_given (some x) = true

unfoldable pub throughput_metric : F64 → F64 → Option F64 → TrendMetric
throughput_metric baseline current threshold_pct =
    trend_metric "requests_per_sec" baseline current
      (throughput_direction baseline current threshold_pct) (is_given threshold_pct)

unfoldable pub error_rate_metric : F64 → F64 → F64 → TrendMetric
error_rate_metric baseline current threshold_pp =
    record (trend_metric "error_rate_pct" baseline current
      (ascending (sub current baseline) threshold_pp) true) { change_pct = none }

unfoldable pub deadlock_metric : F64 → F64 → Bool → TrendMetric
deadlock_metric baseline current zero_tolerance =
    record (trend_metric "deadlock_count" baseline current
      (if lt baseline current && zero_tolerance
        then TrendDirection.regressed
        else if lt current baseline
        then improved
        else neutral)
      zero_tolerance) { change_pct = none }

abbrev values_of : (HistorySample → F64) → List HistorySample → List F64
values_of value samples = map value samples

unfoldable pub build_metrics : List HistorySample → HistorySample → TrendPolicy → List TrendMetric
build_metrics samples current policy =
    informational_ascending "latency_p50_ms" (median (values_of (λ s. s.p50_ms) samples))
      current.p50_ms
    ∷ informational_ascending "latency_p95_ms" (median (values_of (λ s. s.p95_ms) samples))
        current.p95_ms
    ∷ relative_ascending "latency_p99_ms" (median (values_of (λ s. s.p99_ms) samples))
        current.p99_ms policy.regression.p99_pct
    ∷ throughput_metric (median (values_of (λ s. s.requests_per_sec) samples))
        current.requests_per_sec policy.max_rps_drop_pct
    ∷ error_rate_metric (median (values_of (λ s. s.error_rate_pct) samples)) current.error_rate_pct
        policy.regression.error_rate_pp
    ∷ deadlock_metric (median (values_of (λ s. of_nat s.deadlock_count) samples))
        (of_nat current.deadlock_count) policy.regression.deadlock_zero_tolerance
    ∷ informational_ascending "hang_count" (median (values_of (λ s. of_nat s.hang_count) samples))
        (of_nat current.hang_count)
    ∷ []

abbrev pub is_regressed : TrendDirection → Bool
is_regressed TrendDirection.regressed = true
is_regressed _ = false

-- The metrics of a baseline that may be empty.
abbrev pub metrics_of : List HistorySample → HistorySample → TrendPolicy → List TrendMetric
metrics_of [] current policy = []
metrics_of (s ∷ rest) current policy = build_metrics (s ∷ rest) current policy

abbrev pub report_of : List HistorySample → HistorySample → TrendPolicy → TrendReport
report_of eligible current policy =
    let metrics = metrics_of eligible current policy in
    let warmed_up = leb policy.min_samples (length eligible) in
    let regressions =
      if warmed_up
      then filter (λ (m : TrendMetric). m.gating && is_regressed m.direction) metrics
      else [] in
    let has_regression = not (is_empty regressions) in
    record {
      series = current.series;
      current_run_id = current.run_id;
      status =
          if not warmed_up
          then warming_up
          else if has_regression
          then TrendStatus.regressed
          else clean;
      baseline_sample_count = length eligible;
      required_sample_count = policy.min_samples;
      metrics = metrics;
      regressions = regressions;
      has_regression = has_regression;
    }

unfoldable pub analyze_trend :
    List HistorySample → HistorySample → TrendPolicy → Result Error TrendReport
analyze_trend samples current policy = do
  validate_sample current
  validate_policy policy
  ok (report_of (baseline samples current policy.window) current policy)
