-- ===== src/Core/Recorder/Counters.antt =====
-- The counters of crates/core/src/metrics/throughput.rs and the shards of
-- crates/core/src/metrics/histogram.rs, one value at a time.
use mcp_loadtest.Base.{
  ℕ, ◌+◌, ◌%◌, ◌≤◌, ◌<◌, min, max, Bool, true, false, [], ◌∷◌, ◌≡◌, arith, length, ◌==◌,
  if◌then◌else◌, Bool-cases, inl, inr, weigh, weigh-modify, get_elem?-of_lt,
}
use mcp_loadtest.Base.Checked.{u64_limit}
use mcp_loadtest.Core.Metrics.{CallOutcome, OutcomeCounts, contributes_to_latency}
use mcp_loadtest.Core.Recorder.{
  Hdr, bump, tick, Shards, merged, merge_from, record_us, measure_latency, num_shards,
  max_latency_us, as_micros, no_shards,
}

abbrev pub counter : CallOutcome → OutcomeCounts → ℕ
counter CallOutcome.success k = k.success
counter CallOutcome.hang k = k.hang
counter CallOutcome.deadlock k = k.deadlock
counter CallOutcome.timeout k = k.timeout
counter CallOutcome.server_error k = k.server_error
counter CallOutcome.protocol_error k = k.protocol_error
counter CallOutcome.crash k = k.crash
counter CallOutcome.malformed k = k.malformed
counter CallOutcome.disconnected k = k.disconnected
counter CallOutcome.cancelled k = k.cancelled
counter CallOutcome.expected_rejection k = k.expected_rejection

abbrev index : CallOutcome → ℕ
index CallOutcome.success = 0
index CallOutcome.hang = 1
index CallOutcome.deadlock = 2
index CallOutcome.timeout = 3
index CallOutcome.server_error = 4
index CallOutcome.protocol_error = 5
index CallOutcome.crash = 6
index CallOutcome.malformed = 7
index CallOutcome.disconnected = 8
index CallOutcome.cancelled = 9
index CallOutcome.expected_rejection = 10

unfoldable pub is : CallOutcome → CallOutcome → Bool
is o p = index o == index p

pub is_self : (o : CallOutcome) → is o o ≡ true
unfolding is
is_self o = ground arith

-- 1 if the test succeeds.
abbrev pub one_if : Bool → ℕ
one_if true = 1
one_if false = 0

pub one_if_le : (b : Bool) → one_if b ≤ 1
one_if_le b = ground arith

pub counter-bump :
    (o p : CallOutcome) (k : OutcomeCounts)
    → counter o (bump p k) ≡ (if is o p then tick (counter o k) else counter o k)
unfolding bump is
counter-bump CallOutcome.success p k = ground arith
counter-bump _ p k = ground arith

pub counter-bump_small :
    (o p : CallOutcome) (k : OutcomeCounts)
    → counter o k + one_if (is o p) < u64_limit
    → counter o (bump p k) ≡ counter o k + one_if (is o p)
counter-bump_small o p k h = elim (Bool-cases (is o p)) [
  | inl e ↦ rw (counter-bump o p k, e) (omega (arith, ground_small (counter o k) (rw e at h)))
  | inr e ↦ rw (counter-bump o p k, e) (omega arith)
]
  where
    ground_small : (n : ℕ) → n + 1 < u64_limit → tick n ≡ n + 1
    ground_small n h = omega arith

-- Of the crate hdrhistogram: a value within the bounds adds one sample, and merging adds the samples.
pub record Counts (lib : Hdr) : Type 0 where
  pub len_empty : lib.len lib.empty ≡ 0
  pub len_record :
      (v : ℕ) (h : lib.Histogram)
      → 1 ≤ v
      → v ≤ max_latency_us
      → lib.len (lib.record_value v h) ≡ lib.len h + 1
  pub len_merge : (a b : lib.Histogram) → lib.len (lib.merge a b) ≡ lib.len a + lib.len b

module _ (lib : Hdr) (laws : Counts lib) where
  len-merge_from :
      (h : lib.Histogram) (shards : Shards lib)
      → lib.len (merge_from lib h shards) ≡ lib.len h + weigh lib.len shards
  len-merge_from h [] = omega arith
  len-merge_from h (x ∷ rest) =
      omega (arith, len-merge_from (lib.merge h x) rest, laws.len_merge h x)

  pub len-merged : (shards : Shards lib) → lib.len (merged lib shards) ≡ weigh lib.len shards
  unfolding merged
  len-merged shards = omega (arith, len-merge_from lib.empty shards, laws.len_empty)

  pub len-no_shards : lib.len (merged lib (no_shards lib)) ≡ 0
  len-no_shards = omega (arith, len-merged (no_shards lib), laws.len_empty)

  len-record_us :
      (hash v : ℕ) (shards : Shards lib)
      → length shards ≡ num_shards
      → lib.len (merged lib (record_us lib hash v shards)) ≡ lib.len (merged lib shards) + 1
  unfolding record_us
  len-record_us hash v shards full =
      let (h, there) = get_elem?-of_lt (hash % num_shards) shards (omega arith) in
      omega (
        arith,
        len-merged shards,
        len-merged (record_us lib hash v shards),
        weigh-modify lib.len (hash % num_shards) (lib.record_value (min (max v 1) max_latency_us))
            shards there,
        laws.len_record (min (max v 1) max_latency_us) h (ground arith) (ground arith),
      )

  pub len-measure_latency :
      (hash duration : ℕ) (outcome : CallOutcome) (shards : Shards lib)
      → length shards ≡ num_shards
      → lib.len (merged lib (measure_latency lib hash duration outcome shards))
        ≡ lib.len (merged lib shards) + one_if (contributes_to_latency outcome)
  len-measure_latency hash duration outcome shards full =
      elim (Bool-cases (contributes_to_latency outcome)) [
        | inl e ↦ rw e (len-record_us hash (as_micros duration) shards full)
        | inr e ↦ rw e (omega arith)
      ]
