-- ===== src/Distributed/Aggregate/Payload.antt =====
-- crates/distributed/src/aggregate.rs: histograms as evidence, their checks, and the summary.
use mcp_loadtest.Base.{
  ℕ, ◌+◌, ◌*◌, ◌/◌, String, not, ◌||◌, Option, none, some, Result, ok, err, ok_or, reject, ◌>>=◌,
  ◌>>◌, ltb, ◌==◌, if◌then◌else◌, str_eq,
}
use Prim.Native.String.{len as text_len}
use mcp_loadtest.Base.Float.{F64, zero_f64, of_nat, div, to_u64}
use mcp_loadtest.Base.Checked.{u64_limit}
use mcp_loadtest.Core.Metrics.{LatencyStats, no_latency, OutcomeCounts, ScenarioMetrics}
use mcp_loadtest.Distributed.Evidence.{HistogramEvidence, MetricsEvidence}
use mcp_loadtest.Distributed.Aggregate.Types.{
  Histograms, Error, histogram_encode, histogram_decode, histogram_too_large,
  unsupported_histogram_encoding, trailing_histogram_data, histogram_count_mismatch,
  histogram_layout_mismatch, latency_outcome_mismatch,
}
use mcp_loadtest.Distributed.Aggregate.Counters.{add_counter, outcome_total}

abbrev pub max_histogram_bytes : ℕ
max_histogram_bytes = 4 * 1024 * 1024

-- `MAX_HISTOGRAM_BYTES.div_ceil(3) * 4`
abbrev pub max_encoded : ℕ
max_encoded = (max_histogram_bytes + 2) / 3 * 4

abbrev pub hdr_encoding : String
hdr_encoding = "hdr-v2-base64"

-- `map_err`
abbrev pub relabel {ℓ} : {A : Type ℓ} → (String → Error) → Result String A → Result Error A
relabel f (ok a) = ok a
relabel f (err e) = err (f e)

module _ (lib : Histograms) where
  unfoldable pub from_histogram : lib.Histogram → Result Error HistogramEvidence
  from_histogram h = do
    bytes ← relabel histogram_encode (lib.serialize h)
    reject (ltb max_histogram_bytes (lib.byte_count bytes))
        (histogram_too_large (lib.byte_count bytes) max_histogram_bytes)
    ok (record { encoding = hdr_encoding; payload = lib.encode bytes; count = lib.len h })

  unfoldable pub to_histogram : HistogramEvidence → Result Error lib.Histogram
  to_histogram e = do
    reject (not (str_eq e.encoding hdr_encoding)) (unsupported_histogram_encoding e.encoding)
    reject (ltb max_encoded (text_len e.payload))
        (histogram_too_large (text_len e.payload) max_encoded)
    bytes ← relabel histogram_decode (lib.decode e.payload)
    reject (ltb max_histogram_bytes (lib.byte_count bytes))
        (histogram_too_large (lib.byte_count bytes) max_histogram_bytes)
    read ← relabel histogram_decode (lib.deserialize bytes)
    reject (not (read.1 == lib.byte_count bytes)) trailing_histogram_data
    reject (not (lib.len read.0 == e.count)) (histogram_count_mismatch e.count (lib.len read.0))
    ok read.0

  unfoldable pub decode_validated_metrics :
      String → String → MetricsEvidence → Result Error lib.Histogram
  unfolding to_histogram
  decode_validated_metrics agent scope m = do
    histogram ← to_histogram m.latency
    first ← add_counter u64_limit "latency_outcomes" m.outcomes.success m.outcomes.hang
    expected ← add_counter u64_limit "latency_outcomes" first m.outcomes.deadlock
    reject (not (lib.len histogram == expected))
        (latency_outcome_mismatch agent scope (lib.len histogram) expected)
    ok histogram

  unfoldable pub ensure_compatible :
      lib.Histogram → lib.Histogram → String → String → Result Error (Unit {0})
  ensure_compatible left right agent scope =
      reject
        (not (lib.low left == lib.low right)
          || not (lib.high left == lib.high right)
          || not (lib.sigfig left == lib.sigfig right))
        (histogram_layout_mismatch agent scope)

  -- Into what is there: `ensure_compatible`, then `add`.
  unfoldable pub merge_histogram :
      Option lib.Histogram → lib.Histogram → String → String → Result Error lib.Histogram
  unfolding ensure_compatible
  merge_histogram none histogram agent scope = ok histogram
  merge_histogram (some left) histogram agent scope = do
    ensure_compatible left histogram agent scope
    ok_or (lib.add left histogram) (histogram_layout_mismatch agent scope)

  -- `Duration::from_micros`, in nanoseconds.
  abbrev micros : ℕ → ℕ
  micros n = n * 1000

  -- The percentiles are the doubles that the literals 0.50, 0.95, 0.99 and 0.999 denote.
  unfoldable pub latency_of : lib.Histogram → LatencyStats
  latency_of h = if lib.len h == 0 then no_latency else record {
    p50 = micros (lib.value_at_quantile h (div (of_nat 1) (of_nat 2)));
    p95 = micros (lib.value_at_quantile h (div (of_nat 95) (of_nat 100)));
    p99 = micros (lib.value_at_quantile h (div (of_nat 99) (of_nat 100)));
    p999 = micros (lib.value_at_quantile h (div (of_nat 999) (of_nat 1000)));
    mean = micros (to_u64 (lib.mean h));
    min = micros (lib.min h);
    max = micros (lib.max h);
    count = lib.len h;
  }

  unfoldable pub rate : ℕ → ℕ → F64
  rate total elapsed =
      if elapsed == 0 then zero_f64 else div (of_nat total) (div (of_nat elapsed) (of_nat 1000))

  unfoldable pub summarize : lib.Histogram → OutcomeCounts → ℕ → Result Error ScenarioMetrics
  summarize histogram outcomes elapsed = do
    total ← outcome_total outcomes
    successful ←
        add_counter u64_limit "successful_requests" outcomes.success outcomes.expected_rejection
    ok (record {
      latency = latency_of histogram;
      throughput = record {
        total_requests = total;
        successful_requests = successful;
        requests_per_sec = rate total elapsed;
      };
      outcomes = outcomes;
    })
