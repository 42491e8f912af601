-- ===== src/Core/Recorder/Exact.antt =====
-- The snapshots of a recorder (crates/core/src/metrics/mod.rs) that several threads have used.
use mcp_loadtest.Base.{
  ℕ, ◌+◌, ◌≤◌, ◌<◌, Bool, true, false, ◌&&◌, List, [], ◌∷◌, String, Option, none, some, ◌≡◌, refl,
  arith, All, length, filter, weigh, ◌∙◌,
}
use mcp_loadtest.Base.Checked.{u64_limit}
use mcp_loadtest.Base.Map.{get}
use mcp_loadtest.Base.Order.{str_ord}
use mcp_loadtest.Core.Metrics.{CallOutcome, OutcomeCounts, ScenarioMetrics, contributes_to_latency}
use mcp_loadtest.Core.Recorder.{
  Hdr, PerToolState, Shards, merged, total, snapshot, per_tool_snapshot, snapshot_per_tool,
  metrics_of,
}
use mcp_loadtest.Core.Recorder.Threads.{Call, Pc, idle, System, Event, run, fresh}
use mcp_loadtest.Core.Recorder.Meters.{Meter, IsExact}
use mcp_loadtest.Core.Recorder.Balance.{run-fresh-Balanced}
use mcp_loadtest.Core.Recorder.Counters.{
  counter, is, is_self, one_if, counter-bump_small, Counts, len-no_shards, len-measure_latency,
}
use mcp_loadtest.Core.Recorder.Readings.{
  outcome_meter, outcome_meter-IsExact, latency_meter, latency_meter-IsExact, counter-no_outcomes,
}
use mcp_loadtest.Core.Recorder.ToolReadings.{
  for_tool, tool_meter, tool_meter-IsExact, Grows, of_entry,
}

abbrev pub ending : CallOutcome → List Call → List Call
ending o calls = filter (λ c. is o c.outcome) calls

abbrev pub timed : List Call → List Call
timed calls = filter (λ c. contributes_to_latency c.outcome) calls

-- The metrics are those of the calls: each outcome, their number, the successes and the latencies.
pub record Faithful (calls : List Call) (m : ScenarioMetrics) : Type 0 where
  pub outcomes : (o : CallOutcome) → counter o m.outcomes ≡ length (ending o calls)
  pub requests : m.throughput.total_requests ≡ length calls
  pub successes :
      m.throughput.successful_requests
      ≡ length (ending CallOutcome.success calls)
        + length (ending CallOutcome.expected_rejection calls)
  pub latencies : m.latency.count ≡ length (timed calls)

weigh-one_if {ℓ} :
    {A : Type ℓ} (p : A → Bool) (xs : List A) → weigh (λ x. one_if (p x)) xs ≡ length (filter p xs)
weigh-one_if p [] = refl
weigh-one_if p (x ∷ xs) = ground (arith, weigh-one_if p xs)

weigh-one_if-filter {ℓ} :
    {A : Type ℓ} (p q : A → Bool) (xs : List A)
    → weigh (λ x. one_if (p x && q x)) xs ≡ length (filter q (filter p xs))
weigh-one_if-filter p q [] = refl
weigh-one_if-filter p q (x ∷ xs) = ground (arith, weigh-one_if-filter p q xs)

length-filter-le {ℓ} : {A : Type ℓ} (p : A → Bool) (xs : List A) → length (filter p xs) ≤ length xs
length-filter-le p [] = omega arith
length-filter-le p (x ∷ xs) = ground (arith, length-filter-le p xs)

-- Each call ends in one way.
length-ending :
    (calls : List Call)
    → length (ending CallOutcome.success calls)
        + length (ending CallOutcome.hang calls)
        + length (ending CallOutcome.deadlock calls)
        + length (ending CallOutcome.timeout calls)
        + length (ending CallOutcome.server_error calls)
        + length (ending CallOutcome.protocol_error calls)
        + length (ending CallOutcome.crash calls)
        + length (ending CallOutcome.malformed calls)
        + length (ending CallOutcome.disconnected calls)
        + length (ending CallOutcome.cancelled calls)
        + length (ending CallOutcome.expected_rejection calls)
      ≡ length calls
unfolding is
length-ending [] = refl
length-ending (c ∷ rest) = ground (arith, length-ending rest)

module _ (lib : Hdr) where
  metrics_of-Faithful :
      (calls : List Call) (start now : ℕ) (shards : Shards lib) (k : OutcomeCounts)
      → ((o : CallOutcome) → counter o k ≡ length (ending o calls))
      → lib.len (merged lib shards) ≡ length (timed calls)
      → length calls < u64_limit
      → Faithful calls (metrics_of lib start now shards k)
  unfolding total
  metrics_of-Faithful calls start now shards k outcomes samples few = record {
    outcomes = outcomes;
    requests = omega (
      arith,
      length-ending calls,
      outcomes CallOutcome.success,
      outcomes CallOutcome.hang,
      outcomes CallOutcome.deadlock,
      outcomes CallOutcome.timeout,
      outcomes CallOutcome.server_error,
      outcomes CallOutcome.protocol_error,
      outcomes CallOutcome.crash,
      outcomes CallOutcome.malformed,
      outcomes CallOutcome.disconnected,
      outcomes CallOutcome.cancelled,
      outcomes CallOutcome.expected_rejection,
    );
    successes = omega (
      arith,
      length-ending calls,
      outcomes CallOutcome.success,
      outcomes CallOutcome.expected_rejection,
    );
    latencies = ground arith;
  }

  get-snapshot_per_tool :
      (t : String) (now : ℕ) (m : List (String × PerToolState lib))
      → get t (snapshot_per_tool lib now m)
        ≡ elim (get t m) [ none ↦ none | some s ↦ some (per_tool_snapshot lib now s) ]
  unfolding get snapshot_per_tool
  get-snapshot_per_tool t now [] = refl
  get-snapshot_per_tool t now ((name, s) ∷ rest) = ground (arith, get-snapshot_per_tool t now rest)

  -- The metrics of a tool, which has an entry if a call named it.
  abbrev pub OfTool : List Call → Option ScenarioMetrics → Type 0
  OfTool calls none = calls ≡ []
  OfTool calls (some m) = Faithful calls m

  abbrev pub calls_of : String → List Call → List Call
  calls_of t calls = filter (λ c. for_tool t c.tool) calls

  outcome_grows :
      (t : String) (o : CallOutcome)
      → Grows lib t (λ s. counter o s.outcomes) (λ c. is o c.outcome) false
  outcome_grows t o = record {
    at_first = λ now. counter-no_outcomes lib o;
    by_count = λ c s h. omega (arith, counter-bump_small o c.outcome s.outcomes h);
    by_measure = λ hash c s h. omega arith;
  }

  latency_grows :
      (laws : Counts lib) (t : String)
      → Grows lib t
          (λ s. lib.len (merged lib s.latency))
          (λ c. contributes_to_latency c.outcome)
          true
  latency_grows laws t = record {
    at_first = λ now. len-no_shards lib laws;
    by_count = λ c s h. refl;
    by_measure = λ hash c s h. len-measure_latency lib laws hash c.duration c.outcome s.latency h;
  }

  none_of : (calls : List Call) → ((o : CallOutcome) → 0 ≡ length (ending o calls)) → calls ≡ []
  none_of [] h = refl
  none_of (c ∷ rest) h = absurd (ground (arith, h c.outcome, is_self c.outcome))

  entry-OfTool :
      (calls : List Call) (now : ℕ) (o : Option (PerToolState lib))
      → ((p : CallOutcome) → of_entry lib (λ s. counter p s.outcomes) o ≡ length (ending p calls))
      → of_entry lib (λ s. lib.len (merged lib s.latency)) o ≡ length (timed calls)
      → length calls < u64_limit
      → OfTool calls (elim o [ none ↦ none | some s ↦ some (per_tool_snapshot lib now s) ])
  unfolding per_tool_snapshot
  entry-OfTool calls now none outcomes samples few = none_of calls outcomes
  entry-OfTool calls now (some s) outcomes samples few =
      metrics_of-Faithful calls s.start now s.latency s.outcomes outcomes samples few

  module _ (laws : Counts lib) (hash : ℕ → ℕ) (threads start : ℕ) (events : List (Event lib)) where
    abbrev pub after : System lib
    after = run lib hash (fresh lib threads start) events

    module _ (quiet : All (λ p. p ≡ idle) after.threads)
        (few : length after.calls < u64_limit) where
      settled :
          (m : Meter lib) → IsExact lib m → m.reading after.recorder ≡ weigh m.share after.calls
      settled m x = omega (
        arith,
        run-fresh-Balanced lib m x hash threads start events few,
        nothing after.threads quiet,
      )
        where
          nothing : (ps : List Pc) → All (λ p. p ≡ idle) ps → weigh m.owed ps ≡ 0
          nothing [] q = refl
          nothing (p ∷ rest) q = ground (arith, q.0, x.rests, nothing rest q.1)

      snapshot-Faithful : (now : ℕ) → Faithful after.calls (snapshot lib now after.recorder)
      unfolding snapshot
      snapshot-Faithful now =
          metrics_of-Faithful after.calls after.recorder.start now after.recorder.latency
            after.recorder.outcomes
            (λ o.
              settled (outcome_meter lib o) (outcome_meter-IsExact lib o)
              ∙ weigh-one_if _ after.calls)
            (settled (latency_meter lib laws) (latency_meter-IsExact lib laws)
              ∙ weigh-one_if _ after.calls)
            few

      snapshot_per_tool-OfTool :
          (t : String) (now : ℕ)
          → OfTool
              (calls_of t after.calls)
              (get t (snapshot_per_tool lib now after.recorder.per_tool))
      snapshot_per_tool-OfTool t now = rw (get-snapshot_per_tool t now after.recorder.per_tool) (
          entry-OfTool (calls_of t after.calls) now (get t after.recorder.per_tool)
            (λ o.
              settled (tool_meter lib t _ _ false)
                (tool_meter-IsExact lib t _ _ false (outcome_grows t o))
              ∙ weigh-one_if-filter _ _ after.calls)
            (settled (tool_meter lib t _ _ true)
                (tool_meter-IsExact lib t _ _ true (latency_grows laws t))
              ∙ weigh-one_if-filter _ _ after.calls)
            (le_lt_trans (length-filter-le _ after.calls) few))
        where
          le_lt_trans : {a b : ℕ} → a ≤ b → b < u64_limit → a < u64_limit
          le_lt_trans h k = omega arith

      -- Threads that share a recorder make calls, fewer than 2 ^ 64, with their actions in any order. When
      -- none is under way, the snapshot has exactly the calls: each outcome with its number, all of
      -- them as requests, those that succeeded or were rejected as expected as successful, and as many
      -- latencies as calls that ended in success, hang or deadlock. The snapshot of a tool has so the
      -- calls that named it, and only a tool that no call named may have none.
      pub snapshots :
          (now : ℕ)
          → Faithful after.calls (snapshot lib now after.recorder)
            × ((t : String)
                → OfTool
                    (calls_of t after.calls)
                    (get t (snapshot_per_tool lib now after.recorder.per_tool)))
      snapshots now = (snapshot-Faithful now, λ t. snapshot_per_tool-OfTool t now)
