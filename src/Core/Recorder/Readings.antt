-- ===== src/Core/Recorder/Readings.antt =====
-- The meters of a recorder (crates/core/src/metrics/mod.rs): each counter and the histogram of the
-- whole run are exact for one action.
use mcp_loadtest.Base.{ℕ, ◌+◌, ◌≡◌, refl, arith, ap}
use mcp_loadtest.Base.Order.{str_ord}
use mcp_loadtest.Core.Metrics.{CallOutcome, OutcomeCounts, contributes_to_latency, no_outcomes}
use mcp_loadtest.Core.Recorder.{Hdr, Recorder, merged}
use mcp_loadtest.Core.Recorder.Threads.{
  Pc, idle, counted, recorded, missed, found, tool_counted, act, count_call,
}
use mcp_loadtest.Core.Recorder.Meters.{Meter, IsExact, Shaped}
use mcp_loadtest.Core.Recorder.Counters.{
  counter, is, one_if, counter-bump_small, one_if_le, Counts, len-no_shards, len-measure_latency,
}

module _ (lib : Hdr) where
  -- The global counter of an outcome.
  abbrev pub outcome_meter : CallOutcome → Meter lib
  outcome_meter o = record {
    reading = λ r. counter o r.outcomes;
    owed = λ p. 0;
    share = λ c. one_if (is o c.outcome);
  }

  pub counter-no_outcomes : (o : CallOutcome) → counter o no_outcomes ≡ 0
  counter-no_outcomes CallOutcome.success = refl
  counter-no_outcomes _ = refl

  act-outcomes :
      (hash now : ℕ) (r : Recorder lib) (p : Pc) → (act lib hash now r p).0.outcomes ≡ r.outcomes
  unfolding act
  act-outcomes hash now r idle = refl
  act-outcomes hash now r (counted c) = refl
  act-outcomes hash now r (recorded name c) = refl
  act-outcomes hash now r (missed name c) = ground arith
  act-outcomes hash now r (found name c) = ground arith
  act-outcomes hash now r (tool_counted name c) = ground arith

  pub outcome_meter-IsExact : (o : CallOutcome) → IsExact lib (outcome_meter o)
  unfolding count_call
  outcome_meter-IsExact o = record {
    starts = λ now. counter-no_outcomes o;
    rests = refl;
    small = λ c. one_if_le _;
    begins = λ c r h. omega (arith, counter-bump_small o c.outcome r.outcomes h);
    moves = λ hash now r p shaped holds h.
        ap (λ (k : OutcomeCounts). counter o k + 0) (act-outcomes hash now r p);
  }

  module _ (laws : Counts lib) where
    abbrev latency_owed : Pc → ℕ
    latency_owed (counted c) = one_if (contributes_to_latency c.outcome)
    latency_owed _ = 0

    abbrev pub latency_meter : Meter lib
    latency_meter = record {
      reading = λ r. lib.len (merged lib r.latency);
      owed = latency_owed;
      share = λ c. one_if (contributes_to_latency c.outcome);
    }

    latency_meter-moves :
        (hash now : ℕ) (r : Recorder lib) (p : Pc)
        → Shaped lib r
        → lib.len (merged lib (act lib hash now r p).0.latency)
            + latency_owed (act lib hash now r p).1
          ≡ lib.len (merged lib r.latency) + latency_owed p
    unfolding act
    latency_meter-moves hash now r idle s = refl
    latency_meter-moves hash now r (counted c) s =
        ground (arith, len-measure_latency lib laws hash c.duration c.outcome r.latency s.global)
    latency_meter-moves hash now r (recorded name c) s = ground arith
    latency_meter-moves hash now r (missed name c) s = ground arith
    latency_meter-moves hash now r (found name c) s = ground arith
    latency_meter-moves hash now r (tool_counted name c) s = ground arith

    pub latency_meter-IsExact : IsExact lib latency_meter
    unfolding count_call
    latency_meter-IsExact = record {
      starts = λ now. len-no_shards lib laws;
      rests = refl;
      small = λ c. one_if_le _;
      begins = λ c r h. refl;
      moves = λ hash now r p s holds h. latency_meter-moves hash now r p s;
    }
