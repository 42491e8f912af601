-- ===== src/Distributed/Aggregate/Latency.antt =====
-- The latency statistics of `aggregate_evidence` (crates/distributed/src/aggregate.rs) stand for the
-- calls that were counted.
use mcp_loadtest.Base.{
  ℕ, ◌+◌, ◌<◌, String, List, [], ◌∷◌, Option, none, some, ok, ◌≡◌, refl, arith, length,
  Result-cases, inl, inr, ◌∙◌,
}
use mcp_loadtest.Base.Checked.{checked_add, u64_limit}
use mcp_loadtest.Core.Metrics.{OutcomeCounts}
use mcp_loadtest.Core.Metrics.CallOutcome.{success, hang, deadlock}
use mcp_loadtest.Distributed.Evidence.{AgentEvidence, MetricsEvidence}
use mcp_loadtest.Distributed.Aggregate.Types.{Histograms, AggregatedEvidence}
use mcp_loadtest.Distributed.Aggregate.Counters.{add_counter}
use mcp_loadtest.Distributed.Aggregate.Sums.{add_outcomes_exact, outcome_total_exact}
use mcp_loadtest.Distributed.Aggregate.Payload.{decode_validated_metrics, merge_histogram}
use mcp_loadtest.Distributed.Aggregate.Exact.{merge_all-Totals, finish-Finished}
use mcp_loadtest.Distributed.Aggregate.Gathered.{
  Gathered, Statistics, finish-Statistics, merge_all-Holding, Holding-some,
}
use mcp_loadtest.Distributed.Aggregate.Steps.{merge_agent-Merged}
use mcp_loadtest.Distributed.Aggregate.{
  Merge, nothing, merge_agent, merge_all, finish, aggregate_evidence,
}

-- The calls that have a latency.
abbrev pub with_latency : OutcomeCounts → ℕ
with_latency o = o.success + o.hang + o.deadlock

-- What `Histogram::add` documents: it adds the samples, unless their number is more than a `u64`.
abbrev pub AddsSamples : Histograms → Type 0
AddsSamples lib =
    (left right all : lib.Histogram)
    → lib.add left right ≡ some all
    → lib.len left + lib.len right < u64_limit
    → lib.len all ≡ lib.len left + lib.len right

module _ (lib : Histograms) where
  abbrev samples : Option lib.Histogram → ℕ
  samples none = 0
  samples (some h) = lib.len h

  decoded_samples :
      (agent scope : String) (e : MetricsEvidence) {h : lib.Histogram}
      → decode_validated_metrics lib agent scope e ≡ ok h
      → lib.len h ≡ with_latency e.outcomes
  unfolding decode_validated_metrics add_counter checked_add
  decoded_samples agent scope e good = ground arith

  merged_samples :
      AddsSamples lib
      → (o : Option lib.Histogram) (h : lib.Histogram) (agent scope : String) {all : lib.Histogram}
      → merge_histogram lib o h agent scope ≡ ok all
      → samples o + lib.len h < u64_limit
      → lib.len all ≡ samples o + lib.len h
  unfolding merge_histogram
  merged_samples adds none h agent scope good fits = ground arith
  merged_samples adds (some left) h agent scope {all} good fits =
      adds left h all (ground arith) fits

  merge_all-samples :
      AddsSamples lib
      → (k : ℕ) (first : AgentEvidence) (m : Merge lib) (es : List AgentEvidence) {n : Merge lib}
      → merge_all lib k first m es ≡ ok n
      → with_latency n.outcomes < u64_limit
      → samples m.merged_histogram ≡ with_latency m.outcomes
      → samples n.merged_histogram ≡ with_latency n.outcomes
  unfolding merge_all
  merge_all-samples adds k first m [] h fits good = ground arith
  merge_all-samples adds k first m (e ∷ es) {n} h fits good =
      elim (Result-cases (merge_agent lib k first m e)) [
        | inr (x, bad) ↦ absurd (ground (arith, bad))
        | inl (next, went) ↦
            let step = merge_agent-Merged lib k first m e went in
            let after : merge_all lib k first next es ≡ ok n = ground (arith, went) in
            let totals = merge_all-Totals lib k first next es after in
            let own = decoded_samples e.agent_name "global" e.metrics step.decodes in
            let grown : with_latency next.outcomes
                ≡ with_latency m.outcomes + with_latency e.metrics.outcomes =
              ground (
                arith,
                add_outcomes_exact success m.outcomes e.metrics.outcomes step.outcomes,
                add_outcomes_exact hang m.outcomes e.metrics.outcomes step.outcomes,
                add_outcomes_exact deadlock m.outcomes e.metrics.outcomes step.outcomes,
              ) in
            let small : with_latency next.outcomes < u64_limit =
              ground
                (arith, totals.outcomes success, totals.outcomes hang, totals.outcomes deadlock) in
            let now : lib.len step.histogram ≡ samples m.merged_histogram + lib.len step.decoded =
              merged_samples adds m.merged_histogram step.decoded e.agent_name "global" step.merges
                (ground (arith, own, grown, small, good)) in
            merge_all-samples adds k first next es after fits
              (ground (arith, now, own, grown, good, step.keeps))
      ]

  -- The latency statistics of `r` are over the calls that the reports `es` have timed.
  pub record Timed (es : List AgentEvidence) (r : AggregatedEvidence) : Type 0 where
    pub histogram : lib.Histogram
    pub gathered : Gathered lib es histogram
    pub statistics : Statistics lib histogram r.metrics.latency
    pub all_samples : lib.len histogram ≡ with_latency r.metrics.outcomes
    pub counted : r.metrics.latency.count ≡ with_latency r.metrics.outcomes

  -- If adding histograms adds their samples and aggregation succeeds, the latency statistics of the result,
  -- the percentiles 50, 95, 99 and 99.9, mean, least, greatest and count, are those of one histogram, in
  -- nanoseconds, and all zero if it is empty. It is what the histograms that the reports carry are if they
  -- are added in the order of the reports, and it has as many samples as calls ended in success, hang or
  -- deadlock, which is also the count.
  pub aggregate_evidence-latency :
      (adds : AddsSamples lib) (es : List AgentEvidence) {r : AggregatedEvidence}
      → aggregate_evidence lib es ≡ ok r
      → Timed es r
  unfolding aggregate_evidence
  aggregate_evidence-latency adds [] h = cc
  aggregate_evidence-latency adds (first ∷ rest) {r} h =
      let es = first ∷ rest in
      elim (Result-cases (merge_all lib (length es) first (nothing lib) es)) [
        | inr (x, bad) ↦ absurd (ground (arith, bad))
        | inl (m, good) ↦
            let end : finish lib first m ≡ ok r = ground (arith, good) in
            let done = finish-Finished lib first m end in
            let total = outcome_total_exact m.outcomes done.requests in
            let counted : samples m.merged_histogram ≡ with_latency m.outcomes =
              merge_all-samples adds (length es) first (nothing lib) es good (ground (arith, total))
                refl in
            let (all, there, gathered) =
              Holding-some lib first rest m.merged_histogram
                (merge_all-Holding lib (length es) first (nothing lib) [] es good refl) in
            let statistics = finish-Statistics lib first m all end there in
            let sampled : lib.len all ≡ with_latency r.metrics.outcomes =
              ground (arith, counted, there, done.outcomes) in
            record {
              histogram = all;
              gathered = gathered;
              statistics = statistics;
              all_samples = sampled;
              counted = statistics.count ∙ sampled;
            }
      ]
