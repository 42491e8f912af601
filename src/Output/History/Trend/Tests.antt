-- ===== src/Output/History/Trend/Tests.antt =====
-- Four runs of one series (values of the tests of crates/output/src/history/trend.rs).
use mcp_loadtest.Base.{
  str_eq, str_eq_iff, ap, ℕ, ◌≤◌, true, false, List, [], ◌∷◌, length, none, String, ok, ◌≡◌, refl,
  inl, arith, All,
}
use mcp_loadtest.Base.Float.{of_nat, div, sub, add, mul, lt, le_zero, is_finite}
use mcp_loadtest.Base.Sorting.{Apart, swap, sort_by, place, before}
use mcp_loadtest.Output.History.Types.{HistorySample, TrendReport, TrendStatus, default_policy}
use mcp_loadtest.Output.History.Trend.{
  started, analyze_trend, baseline, report_of, median, build_metrics, is_eligible, same_cohort,
  validate_sample, validate_policy, informational_ascending, relative_ascending, throughput_metric,
  error_rate_metric, deadlock_metric, trend_metric, percentage_change,
}
use mcp_loadtest.Base.Order.{str_ord}
use mcp_loadtest.Base.Pairs.{pair_ord}
use mcp_loadtest.Output.History.Series.{validate_series_name, validate_run_id}
use mcp_loadtest.Output.History.Trend.Evidence.{
  Alike, reordered, ignored, both, analyze_trend-Alike,
}
use mcp_loadtest.Output.History.Trend.Gates.{Verdict}
use mcp_loadtest.Output.History.Trend.Report.{Comparable, analyze_trend-Verdict}

abbrev sample : String → String → ℕ → HistorySample
sample run at p99 = record {
  schema_version = 1;
  series = "main";
  run_id = run;
  started_at = at;
  scenario = "sustained";
  protocol_version = none;
  execution_fingerprint = none;
  p50_ms = of_nat 10;
  p95_ms = of_nat 20;
  p99_ms = of_nat p99;
  requests_per_sec = of_nat 100;
  error_rate_pct = of_nat 0;
  deadlock_count = 0;
  hang_count = 0;
  passed = true;
}

abbrev failed : HistorySample
failed = record (sample "f" "0" 90) { passed = false }

abbrev history : List HistorySample
history = sample "b" "2" 31 ∷ sample "a" "1" 30 ∷ failed ∷ sample "c" "3" 32 ∷ []

abbrev in_order : List HistorySample
in_order = sample "a" "1" 30 ∷ sample "b" "2" 31 ∷ sample "c" "3" 32 ∷ []

abbrev current : HistorySample
current = sample "d" "4" 40

middle_of_three : median (of_nat 3 ∷ of_nat 1 ∷ of_nat 2 ∷ []) ≡ of_nat 2
unfolding median of_nat sort_by place before
middle_of_three = refl

first_two-Apart : Apart started (sample "b" "2" 31) (sample "a" "1" 30)
unfolding str_eq
first_two-Apart e =
    absurd (ground (arith, (str_eq_iff "2" "1").1 (ap (λ (k : String × String). k.0) e)))

shuffled : Alike current history in_order
shuffled =
    both history _ in_order
      (ignored (sample "b" "2" 31 ∷ sample "a" "1" 30 ∷ []) (sample "c" "3" 32 ∷ []) failed
        (inl refl))
      (reordered _ _
        (swap (sample "b" "2" 31) (sample "a" "1" 30) (sample "c" "3" 32 ∷ []) first_two-Apart))

analyze_trend-Alike_example :
    analyze_trend history current default_policy ≡ analyze_trend in_order current default_policy
analyze_trend-Alike_example = analyze_trend-Alike history in_order current default_policy shuffled

abbrev outcome : TrendReport
outcome = report_of in_order current default_policy

sound : validate_sample current ≡ ok tt
unfolding validate_sample validate_series_name validate_run_id str_eq lt is_finite of_nat
sound = refl

valid : validate_policy default_policy ≡ ok tt
unfolding validate_policy le_zero is_finite of_nat div
valid = refl

ordered : baseline history current 10 ≡ in_order
unfolding baseline is_eligible same_cohort str_eq sort_by place before
ordered = refl

analyzed : analyze_trend history current default_policy ≡ ok outcome
unfolding analyze_trend
analyzed = rw (sound, valid, ordered) refl

fails : outcome.status ≡ TrendStatus.regressed
unfolding build_metrics informational_ascending relative_ascending throughput_metric
    error_rate_metric deadlock_metric trend_metric percentage_change median sort_by place before lt
    le_zero sub add mul div of_nat
fails = refl

analyze_trend-Verdict_example :
    Verdict (baseline history current 10) current default_policy outcome
    × (length (baseline history current 10) ≤ 10)
    × All (Comparable current) (baseline history current 10)
analyze_trend-Verdict_example =
    analyze_trend-Verdict history current default_policy outcome analyzed
