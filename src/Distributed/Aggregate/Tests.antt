-- ===== src/Distributed/Aggregate/Tests.antt =====
-- Aggregations of two reports, over a small instance of the libraries.
use mcp_loadtest.Base.{
  ℕ, ◌*◌, ◌^◌, false, any, String, List, [], ◌∷◌, some, ok, err, ◌≡◌, refl, str_eq, arith,
}
use Prim.Native.String.{len as text_len, ◌++◌ as append}
use mcp_loadtest.Base.Float.{of_nat, finite, div, to_u64}
use mcp_loadtest.Base.Map.{get, insert}
use mcp_loadtest.Base.Checked.{checked_add}
use mathlib.Core.Option.{some-injective}
use text.Mathlib.TextPositions.{len-append}
use mcp_loadtest.Distributed.Aggregate.Counters.{
  add_counter, add_outcomes, add_all, add_scenario_outcome, outcome_total,
}
use mcp_loadtest.Core.Metrics.{CallOutcome, no_outcomes, LatencyStats, ScenarioMetrics}
use mcp_loadtest.Core.Outcome.{no_outcome}
use mcp_loadtest.Distributed.Samples.{report}
use mcp_loadtest.Distributed.Evidence.{AgentEvidence, MetricsEvidence}
use mcp_loadtest.Distributed.Aggregate.Types.{Histograms, AggregatedEvidence, duplicate_agent}
use mcp_loadtest.Distributed.Aggregate.Payload.{
  from_histogram, to_histogram, decode_validated_metrics, merge_histogram, ensure_compatible,
  summarize, latency_of, rate,
}
use mcp_loadtest.Base.Sets.{holds}
use mcp_loadtest.Base.Order.{str_ord}
use mcp_loadtest.Distributed.Aggregate.Sums.{count}
use mcp_loadtest.Distributed.Aggregate.Exact.{total, Exact, aggregate_evidence-Exact}
use mcp_loadtest.Distributed.Aggregate.Cohort.{Whole, aggregate_evidence-Whole}
use mcp_loadtest.Distributed.Aggregate.Tools.{of_tool, has_tool, aggregate_evidence-per_tool}
use mcp_loadtest.Distributed.Aggregate.Latency.{AddsSamples, Timed, aggregate_evidence-latency}
use mcp_loadtest.Distributed.Aggregate.Roundtrip.{Laws, to_histogram-from_histogram}
use mcp_loadtest.Distributed.Aggregate.{
  aggregate_evidence, merge_all, merge_agent, check_agent, merge_tools, merge_tool, finish,
  summarize_tools,
}

-- A histogram as a text with one character for each sample.
abbrev strokes : Histograms
strokes = record {
  Histogram = String;
  Bytes = String;
  byte_count = text_len;
  serialize = ok;
  deserialize = λ b. ok (b, text_len b);
  encode = λ b. b;
  decode = ok;
  len = text_len;
  low = λ h. 1;
  high = λ h. 3600000000;
  sigfig = λ h. 3;
  add = λ a b. some (append a b);
  value_at_quantile = λ h q. 1;
  mean = λ h. of_nat 1;
  min = λ h. 1;
  max = λ h. 1;
}

abbrev echo_metrics : MetricsEvidence
echo_metrics = record {
  latency = record { encoding = "hdr-v2-base64"; payload = "ab"; count = 2 };
  outcomes = record no_outcomes { success = 2 };
}

abbrev with_echo : AgentEvidence → AgentEvidence
with_echo e = record e {
  metrics = record {
    latency = record { encoding = "hdr-v2-base64"; payload = "abc"; count = 3 };
    outcomes = record no_outcomes { success = 2; hang = 1; timeout = 4 };
  };
  per_tool = ("echo", echo_metrics) ∷ [];
}

abbrev both : List AgentEvidence
both = with_echo (report "west" 1) ∷ with_echo (report "east" 0) ∷ []

abbrev timed : ℕ → LatencyStats
timed n = record {
  p50 = 1000;
  p95 = 1000;
  p99 = 1000;
  p999 = 1000;
  mean = 1000;
  min = 1000;
  max = 1000;
  count = n;
}

abbrev echo_total : ScenarioMetrics
echo_total = record {
  latency = timed 4;
  throughput = record {
    total_requests = 4;
    successful_requests = 4;
    requests_per_sec = finite false (4 * 2 ^ 1074);
  };
  outcomes = record no_outcomes { success = 4 };
}

abbrev whole : AggregatedEvidence
whole = record {
  agent_names = "east" ∷ "west" ∷ [];
  global_concurrency = 2;
  metrics = record {
    latency = timed 6;
    throughput = record {
      total_requests = 14;
      successful_requests = 4;
      requests_per_sec = finite false (14 * 2 ^ 1074);
    };
    outcomes = record no_outcomes { success = 4; hang = 2; timeout = 8 };
  };
  per_tool = ("echo", echo_total) ∷ [];
  scenario_outcome = record no_outcome { total_calls = 6 };
  measurement_elapsed_ms = 1000;
  start_skew_ms = 0;
  target_protocol_version = "2025-11-25";
  tool_inventory_hash = "sha256:tools";
}

both_aggregate : aggregate_evidence strokes both ≡ ok whole
unfolding aggregate_evidence merge_all merge_agent check_agent get str_eq add_counter checked_add
    decode_validated_metrics to_histogram merge_histogram ensure_compatible add_outcomes
    add_scenario_outcome merge_tools merge_tool insert finish outcome_total add_all summarize
    summarize_tools latency_of rate of_nat div to_u64
both_aggregate = refl

same_agent_twice :
    aggregate_evidence strokes (with_echo (report "west" 1) ∷ with_echo (report "west" 0) ∷ [])
    ≡ err (duplicate_agent "west")
unfolding aggregate_evidence merge_all merge_agent check_agent get str_eq add_counter checked_add
    decode_validated_metrics to_histogram merge_histogram ensure_compatible add_outcomes
    add_scenario_outcome merge_tools merge_tool insert finish outcome_total add_all summarize
    summarize_tools latency_of rate of_nat div to_u64
same_agent_twice = refl

aggregate_evidence-Exact_example : Exact strokes both whole
aggregate_evidence-Exact_example = aggregate_evidence-Exact strokes both both_aggregate

aggregate_evidence-Whole_example : Whole both whole
aggregate_evidence-Whole_example = aggregate_evidence-Whole strokes both both_aggregate

aggregate_evidence-per_tool_example :
    (holds "echo" whole.per_tool ≡ any (λ e. has_tool "echo" e.per_tool) both)
    × ((c : CallOutcome) (m : ScenarioMetrics)
        → get "echo" whole.per_tool ≡ some m
        → count c m.outcomes ≡ total (λ e. of_tool c "echo" e.per_tool) both)
aggregate_evidence-per_tool_example = aggregate_evidence-per_tool strokes "echo" both both_aggregate

strokes_add : AddsSamples strokes
strokes_add left right all e fits =
    ground (arith, some-injective (append left right) all e, len-append left right)

aggregate_evidence-latency_example : Timed strokes both whole
aggregate_evidence-latency_example =
    aggregate_evidence-latency strokes strokes_add both both_aggregate

strokes_Laws : Laws strokes
strokes_Laws = record {
  decode-encode = λ b. refl;
  encoded_len = λ b. omega arith;
  deserialize-serialize = λ h b e. ground arith;
}

to_histogram-from_histogram_example :
    to_histogram strokes (record { encoding = "hdr-v2-base64"; payload = "ab"; count = 2 })
    ≡ ok "ab"
unfolding from_histogram to_histogram
to_histogram-from_histogram_example = to_histogram-from_histogram strokes strokes_Laws "ab" refl
