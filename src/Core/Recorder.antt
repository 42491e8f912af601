-- ===== src/Core/Recorder.antt =====
-- crates/core/src/metrics: the recorder of calls, mod.rs with its parts throughput.rs, histogram.rs and
-- per_tool.rs. The crate hdrhistogram is the parameter `Hdr`, the hash of a thread is `hash`.
pub mod Threads
pub mod Counters
pub mod Meters
pub mod Shapes
pub mod Balance
pub mod Readings
pub mod ToolReadings
pub mod Exact
mod Tests
use mcp_loadtest.Base.{
  ℕ, zero, suc, ◌+◌, ◌*◌, ◌/◌, ◌%◌, ◌-◌, min, max, Bool, true, false, List, [], ◌∷◌, String, Option,
  none, some, ltb, ◌==◌, if◌then◌else◌, replicate, modify,
}
use mcp_loadtest.Base.Float.{F64, zero_f64, of_nat, add, div, lt, to_u64}
use mcp_loadtest.Base.Checked.{u64_limit}
use mcp_loadtest.Base.Map.{get, insert, update}
use mcp_loadtest.Base.Order.{str_ord}
use mcp_loadtest.Core.Metrics.{
  CallOutcome, success, hang, deadlock, timeout, server_error, protocol_error, crash, malformed,
  disconnected, cancelled, expected_rejection, contributes_to_latency, LatencyStats, no_latency,
  ThroughputStats, OutcomeCounts, no_outcomes, ScenarioMetrics,
}

-- `Histogram<u64>`; `empty` is what `new_with_bounds(1, MAX_LATENCY_US, 3)` gives.
pub record Hdr : Type 1 where
  pub Histogram : Type 0
  pub empty : Histogram
  pub record_value : ℕ → Histogram → Histogram
  pub merge : Histogram → Histogram → Histogram
  pub len : Histogram → ℕ
  pub value_at_quantile : Histogram → F64 → ℕ
  pub mean : Histogram → F64
  pub min : Histogram → ℕ
  pub max : Histogram → ℕ

-- `fetch_add(1)`
abbrev pub tick : ℕ → ℕ
tick n = (n + 1) % u64_limit

-- `OutcomeCounters::bump`
unfoldable pub bump : CallOutcome → OutcomeCounts → OutcomeCounts
bump CallOutcome.success k = record k { success = tick k.success }
bump CallOutcome.hang k = record k { hang = tick k.hang }
bump CallOutcome.deadlock k = record k { deadlock = tick k.deadlock }
bump CallOutcome.timeout k = record k { timeout = tick k.timeout }
bump CallOutcome.server_error k = record k { server_error = tick k.server_error }
bump CallOutcome.protocol_error k = record k { protocol_error = tick k.protocol_error }
bump CallOutcome.crash k = record k { crash = tick k.crash }
bump CallOutcome.malformed k = record k { malformed = tick k.malformed }
bump CallOutcome.disconnected k = record k { disconnected = tick k.disconnected }
bump CallOutcome.cancelled k = record k { cancelled = tick k.cancelled }
bump CallOutcome.expected_rejection k = record k { expected_rejection = tick k.expected_rejection }

-- `OutcomeSnapshot::total`, which wraps as a release build does.
unfoldable pub total : OutcomeCounts → ℕ
total k =
    (k.success + k.hang + k.deadlock + k.timeout + k.server_error + k.protocol_error + k.crash
      + k.malformed + k.disconnected + k.cancelled + k.expected_rejection)
    % u64_limit

-- `Duration::as_secs_f64`
abbrev pub as_secs_f64 : ℕ → F64
as_secs_f64 nanos =
    add (of_nat (nanos / 1000000000)) (div (of_nat (nanos % 1000000000)) (of_nat 1000000000))

unfoldable pub requests_per_sec : (start now total : ℕ) → F64
requests_per_sec start now total =
    let elapsed = as_secs_f64 (now - start) in
    if lt zero_f64 elapsed then div (of_nat total) elapsed else zero_f64

-- `u64::try_from(duration.as_micros()).unwrap_or(u64::MAX)`
abbrev pub as_micros : ℕ → ℕ
as_micros nanos = min (nanos / 1000) (u64_limit - 1)

-- 1 hour in microseconds
abbrev pub max_latency_us : ℕ
max_latency_us = 3600000000

abbrev pub num_shards : ℕ
num_shards = 16

module _ (lib : Hdr) where
  abbrev pub Shards : Type 0
  Shards = List lib.Histogram

  -- `ShardedHistogram::new`
  abbrev pub no_shards : Shards
  no_shards = replicate num_shards lib.empty

  -- `ShardedHistogram::record`, into the shard that the hash of the thread picks.
  unfoldable pub record_us : (hash value_us : ℕ) → Shards → Shards
  record_us hash value_us shards =
      modify (hash % num_shards) (lib.record_value (min (max value_us 1) max_latency_us)) shards

  abbrev merge_from : lib.Histogram → Shards → lib.Histogram
  merge_from merged [] = merged
  merge_from merged (h ∷ rest) = merge_from (lib.merge merged h) rest

  unfoldable pub merged : Shards → lib.Histogram
  merged shards = merge_from lib.empty shards

  pub record PerToolState : Type 0 where
    pub start : ℕ
    pub latency : Shards
    pub outcomes : OutcomeCounts

  abbrev pub new_tool : ℕ → PerToolState
  new_tool now = record { start = now; latency = no_shards; outcomes = no_outcomes }

  -- `RecorderInner`
  pub record Recorder : Type 0 where
    pub start : ℕ
    pub latency : Shards
    pub outcomes : OutcomeCounts
    pub per_tool : List (String × PerToolState)

  abbrev pub new : ℕ → Recorder
  new now = record { start = now; latency = no_shards; outcomes = no_outcomes; per_tool = [] }

  abbrev pub measure_latency : (hash : ℕ) → (duration : ℕ) → CallOutcome → Shards → Shards
  measure_latency hash duration outcome shards =
      if contributes_to_latency outcome then record_us hash (as_micros duration) shards else shards

  -- The latencies of a merged histogram.
  abbrev pub latency_stats : lib.Histogram → LatencyStats
  latency_stats h = if lib.len h == 0 then no_latency else record {
    p50 = 1000 * lib.value_at_quantile h (div (of_nat 50) (of_nat 100));
    p95 = 1000 * lib.value_at_quantile h (div (of_nat 95) (of_nat 100));
    p99 = 1000 * lib.value_at_quantile h (div (of_nat 99) (of_nat 100));
    p999 = 1000 * lib.value_at_quantile h (div (of_nat 999) (of_nat 1000));
    mean = 1000 * to_u64 (lib.mean h);
    min = 1000 * lib.min h;
    max = 1000 * lib.max h;
    count = lib.len h;
  }

  abbrev pub metrics_of : (start now : ℕ) → Shards → OutcomeCounts → ScenarioMetrics
  metrics_of start now shards k = record {
    latency = latency_stats (merged shards);
    throughput = record {
      total_requests = total k;
      successful_requests = (k.success + k.expected_rejection) % u64_limit;
      requests_per_sec = requests_per_sec start now (total k);
    };
    outcomes = k;
  }

  unfoldable pub snapshot : (now : ℕ) → Recorder → ScenarioMetrics
  snapshot now r = metrics_of r.start now r.latency r.outcomes

  -- `per_tool_snapshot`
  unfoldable pub per_tool_snapshot : (now : ℕ) → PerToolState → ScenarioMetrics
  per_tool_snapshot now s = metrics_of s.start now s.latency s.outcomes

  unfoldable pub snapshot_per_tool :
      (now : ℕ) → List (String × PerToolState) → List (String × ScenarioMetrics)
  snapshot_per_tool now [] = []
  snapshot_per_tool now ((name, s) ∷ rest) =
      (name, per_tool_snapshot now s) ∷ snapshot_per_tool now rest

  unfoldable pub latency_histogram : Recorder → lib.Histogram
  latency_histogram r = merged r.latency

  unfoldable pub per_tool_latency_histograms :
      List (String × PerToolState) → List (String × lib.Histogram)
  per_tool_latency_histograms [] = []
  per_tool_latency_histograms ((name, s) ∷ rest) =
      (name, merged s.latency) ∷ per_tool_latency_histograms rest
