-- ===== src/Engine/Thresholds/Tests.antt =====
-- A run with a budget of each kind (values of the tests of crates/engine/src/run/thresholds.rs).
use mcp_loadtest.Base.{ℕ, true, List, [], ◌∷◌, none, some, String, ◌≡◌, refl, ◌↔◌}
use mcp_loadtest.Base.Float.{of_nat, div, sub, add, mul, lt, max_f64, is_finite}
use mcp_loadtest.Base.Order.{str_ord}
use mcp_loadtest.Base.Map.{get}
use mcp_loadtest.Core.Metrics.{ScenarioMetrics, no_latency, no_outcomes}
use mcp_loadtest.Core.Outcome.{no_outcome}
use mcp_loadtest.Core.Report.{
  ProcessSample, Report, passed, error_rate, rate_within, rate_of, memory_growth_mb, slope_within,
  too_few_samples,
}
use mcp_loadtest.Core.Thresholds.{ThresholdsConfig}
use mcp_loadtest.Engine.LeakDetect.{detect_leak}
use mcp_loadtest.Engine.Thresholds.{
  evaluate_report_thresholds, evaluate_thresholds, evaluate_tool_slos, check_latency,
  check_error_rate, check_memory_growth, check_rss_slope,
}
use mcp_loadtest.Engine.Thresholds.Budgets.{Meets}
use mcp_loadtest.Engine.Thresholds.Verdict.{Sound, passed-evaluate_report_thresholds}

-- 100 ms, 5 %, 50 MB and 1 MB/s; 50 ms for the tool `echo`.
abbrev config : ThresholdsConfig
config = record {
  p50_latency = none;
  p95_latency = none;
  p99_latency = some 100000000;
  p999_latency = none;
  error_rate = some (div (of_nat 5) (of_nat 100));
  hang_timeout = none;
  memory_growth_mb = some (of_nat 50);
  rss_leak_mb_per_sec = some (of_nat 1);
  tool_slos = (record { tool = "echo"; p99_latency = 50000000 }) ∷ [];
}

abbrev metrics : ℕ → ScenarioMetrics
metrics successful = record {
  latency = record no_latency { p99 = 20000000; count = 100 };
  throughput = record {
    total_requests = 100;
    successful_requests = successful;
    requests_per_sec = of_nat 100;
  };
  outcomes = record no_outcomes { success = successful };
}

abbrev sample : ℕ → ℕ → ProcessSample
sample at rss = record {
  at_secs = of_nat at;
  rss_mb = of_nat rss;
  cpu_pct = of_nat 10;
  fd = 8;
  threads = 2;
}

abbrev report : ℕ → List ProcessSample → Report
report successful samples = record {
  run_id = "01TEST";
  started_at = 0;
  duration = 3000000000;
  scenario_name = "sustained";
  server_info = record { command = "python"; args = []; pid = some 7; protocol_version = none };
  metrics = metrics successful;
  process = record {
    peak_rss_mb = of_nat 21;
    final_rss_mb = of_nat 21;
    baseline_rss_mb = of_nat 20;
    avg_cpu_pct = of_nat 10;
    peak_fd = 8;
    final_fd = 8;
    peak_threads = 2;
    final_threads = 2;
    samples = samples;
  };
  scenario_outcome = record no_outcome { total_calls = 100; successful_calls = successful };
  trace_path = none;
  threshold_violations = [];
  coverage = none;
}

abbrev three_samples : List ProcessSample
three_samples = sample 1 20 ∷ sample 2 20 ∷ sample 3 21 ∷ []

abbrev per_tool : List (String × ScenarioMetrics)
per_tool = ("echo", metrics 98) ∷ []

healthy_meets :
    (evaluate_report_thresholds config (report 98 three_samples) per_tool).threshold_violations ≡ []
unfolding evaluate_report_thresholds evaluate_thresholds evaluate_tool_slos check_latency
    check_error_rate check_memory_growth check_rss_slope detect_leak of_nat div sub add mul lt
    max_f64 is_finite get
healthy_meets = refl

-- 20 % of errors, and too few samples to fit a line.
faulty_violates :
    (evaluate_report_thresholds config (report 80 (sample 1 20 ∷ [])) per_tool).threshold_violations
    ≡ (record {
      kind = error_rate;
      expected = rate_within (div (of_nat 5) (of_nat 100));
      actual = rate_of (div (of_nat 20) (of_nat 100));
    })
      ∷ (record {
        kind = memory_growth_mb;
        expected = slope_within (of_nat 1);
        actual = too_few_samples 1;
      })
      ∷ []
unfolding evaluate_report_thresholds evaluate_thresholds evaluate_tool_slos check_latency
    check_error_rate check_memory_growth check_rss_slope detect_leak of_nat div sub add mul lt
    max_f64 is_finite get
faulty_violates = refl

passed-evaluate_report_thresholds_example :
    (passed (evaluate_report_thresholds config (report 98 three_samples) per_tool) ≡ true)
    ↔ (Meets config (report 98 three_samples) per_tool × Sound (report 98 three_samples))
passed-evaluate_report_thresholds_example =
    passed-evaluate_report_thresholds config (report 98 three_samples) per_tool
