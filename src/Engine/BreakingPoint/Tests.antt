-- ===== src/Engine/BreakingPoint/Tests.antt =====
-- A ramp of three steps that breaks at the last (as in the tests of crates/engine/src/breaking_point.rs).
use mcp_loadtest.Base.{ℕ, none, some, ◌≡◌, refl}
use mcp_loadtest.Base.Float.{of_nat, div, lt}
use mcp_loadtest.Core.Metrics.{ScenarioMetrics, no_latency, no_outcomes}
use mcp_loadtest.Engine.BreakingPoint.{
  Config, Detector, p99_latency, new, observe, breaking_point, scan, compute_error_rate,
}
use mcp_loadtest.Engine.BreakingPoint.First.{Verdict, breaking_point-Verdict}

-- 100 ms, and 5 %.
abbrev budget : Config
budget = record {
  max_p99_latency = 100000000;
  max_error_rate = div (of_nat 5) (of_nat 100);
  window_secs = of_nat 1;
}

abbrev metrics : ℕ → ℕ → ℕ → ScenarioMetrics
metrics p99 total successful = record {
  latency = record no_latency { p99 = p99; count = total };
  throughput = record {
    total_requests = total;
    successful_requests = successful;
    requests_per_sec = of_nat total;
  };
  outcomes = record no_outcomes { success = successful };
}

abbrev ramp : Detector
ramp =
    observe
      (observe (observe (new budget) 1 (metrics 10000000 100 100)) 2 (metrics 50000000 100 95)) 4
      (metrics 234000000 100 100)

ramp_breaks : (breaking_point ramp).trigger ≡ some (p99_latency 234 100 4)
unfolding breaking_point scan observe new compute_error_rate lt div of_nat
ramp_breaks = refl

ramp_last_good : (breaking_point ramp).last_known_good ≡ some 2
unfolding breaking_point scan observe new compute_error_rate lt div of_nat
ramp_last_good = refl

breaking_point-Verdict_example : Verdict budget none ramp.samples (breaking_point ramp)
unfolding observe new
breaking_point-Verdict_example = breaking_point-Verdict ramp
