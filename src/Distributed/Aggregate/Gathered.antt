-- ===== src/Distributed/Aggregate/Gathered.antt =====
-- The histogram that the latency statistics of `aggregate_evidence` (crates/distributed/src/aggregate.rs)
-- are taken from.
use mcp_loadtest.Base.{
  ℕ, ◌*◌, ◌≤◌, String, List, [], ◌∷◌, ◌++◌, Option, none, some, ok, ◌≡◌, refl, sym, subst, inl, inr,
  arith, Result-cases,
}
use mathlib.Core.List.{append_assoc, append-nil}
use mcp_loadtest.Base.Float.{F64, of_nat, div, to_u64}
use mcp_loadtest.Core.Metrics.{LatencyStats}
use mcp_loadtest.Distributed.Evidence.{AgentEvidence, MetricsEvidence}
use mcp_loadtest.Distributed.Aggregate.Types.{Histograms, AggregatedEvidence}
use mcp_loadtest.Distributed.Aggregate.Payload.{
  to_histogram, decode_validated_metrics, merge_histogram, ensure_compatible, summarize, latency_of,
}
use mcp_loadtest.Distributed.Aggregate.Steps.{merge_agent-Merged}
use mcp_loadtest.Distributed.Aggregate.{Merge, merge_agent, merge_all, finish}

-- `k` of `n` parts, as a double.
abbrev pub quantile : ℕ → ℕ → F64
quantile k n = div (of_nat k) (of_nat n)

module _ (lib : Histograms) where
  -- The histograms that the reports carry, added one after the other.
  pub data Gathered : List AgentEvidence → lib.Histogram → Type 0 where
    alone :
        (e : AgentEvidence) (h : lib.Histogram)
        → to_histogram lib e.metrics.latency ≡ ok h
        → Gathered (e ∷ []) h
    added :
        (es : List AgentEvidence) (e : AgentEvidence) (h g all : lib.Histogram)
        → Gathered es h
        → to_histogram lib e.metrics.latency ≡ ok g
        → lib.add h g ≡ some all
        → Gathered (es ++ e ∷ []) all

  -- The statistics of a histogram of microseconds, in nanoseconds; of an empty one they are all zero.
  pub record Statistics (h : lib.Histogram) (l : LatencyStats) : Type 0 where
    pub count : l.count ≡ lib.len h
    pub p50 : 1 ≤ lib.len h → l.p50 ≡ lib.value_at_quantile h (quantile 1 2) * 1000
    pub p95 : 1 ≤ lib.len h → l.p95 ≡ lib.value_at_quantile h (quantile 95 100) * 1000
    pub p99 : 1 ≤ lib.len h → l.p99 ≡ lib.value_at_quantile h (quantile 99 100) * 1000
    pub p999 : 1 ≤ lib.len h → l.p999 ≡ lib.value_at_quantile h (quantile 999 1000) * 1000
    pub mean : 1 ≤ lib.len h → l.mean ≡ to_u64 (lib.mean h) * 1000
    pub min : 1 ≤ lib.len h → l.min ≡ lib.min h * 1000
    pub max : 1 ≤ lib.len h → l.max ≡ lib.max h * 1000
    pub empty :
        lib.len h ≡ 0
        → l ≡ record { p50 = 0; p95 = 0; p99 = 0; p999 = 0; mean = 0; min = 0; max = 0; count = 0 }

  latency_of-Statistics : (h : lib.Histogram) → Statistics h (latency_of lib h)
  unfolding latency_of
  latency_of-Statistics h = record {
    count = ground arith;
    p50 = λ k. ground arith;
    p95 = λ k. ground arith;
    p99 = λ k. ground arith;
    p999 = λ k. ground arith;
    mean = λ k. ground arith;
    min = λ k. ground arith;
    max = λ k. ground arith;
    empty = λ k. ground arith;
  }

  pub finish-Statistics :
      (first : AgentEvidence) (m : Merge lib) (h : lib.Histogram) {r : AggregatedEvidence}
      → finish lib first m ≡ ok r
      → m.merged_histogram ≡ some h
      → Statistics h r.metrics.latency
  unfolding finish summarize
  finish-Statistics first m h {r} good there =
      subst (Statistics h) (ground (arith, there)) (latency_of-Statistics h)

  -- What the loop has merged after the reports `es`.
  abbrev pub Holding : List AgentEvidence → Option lib.Histogram → Type 0
  Holding es none = es ≡ []
  Holding es (some h) = Gathered es h

  decode-to_histogram :
      (agent scope : String) (e : MetricsEvidence) {h : lib.Histogram}
      → decode_validated_metrics lib agent scope e ≡ ok h
      → to_histogram lib e.latency ≡ ok h
  unfolding decode_validated_metrics
  decode-to_histogram agent scope e good = elim (Result-cases (to_histogram lib e.latency)) [
    | inr (x, bad) ↦ absurd (ground (arith, bad))
    | inl (g, read) ↦ ground (arith, read)
  ]

  merge-Gathered :
      (es : List AgentEvidence) (e : AgentEvidence) (o : Option lib.Histogram) (g : lib.Histogram)
      (agent scope : String) {all : lib.Histogram}
      → Holding es o
      → to_histogram lib e.metrics.latency ≡ ok g
      → merge_histogram lib o g agent scope ≡ ok all
      → Gathered (es ++ e ∷ []) all
  unfolding merge_histogram ensure_compatible
  merge-Gathered es e none g agent scope {all} held own good =
      subst (λ l. Gathered (l ++ e ∷ []) all) (sym held) (alone e all (ground arith))
  merge-Gathered es e (some h) g agent scope {all} held own good =
      added es e h g all held own (ground arith)

  pub merge_all-Holding :
      (k : ℕ) (first : AgentEvidence) (m : Merge lib) (done es : List AgentEvidence) {n : Merge lib}
      → merge_all lib k first m es ≡ ok n
      → Holding done m.merged_histogram
      → Holding (done ++ es) n.merged_histogram
  unfolding merge_all
  merge_all-Holding k first m done [] {n} h held =
      subst (λ l. Holding l n.merged_histogram) (sym (append-nil done))
        (subst (Holding done) (ground arith) held)
  merge_all-Holding k first m done (e ∷ es) {n} h held =
      elim (Result-cases (merge_agent lib k first m e)) [
        | inr (x, bad) ↦ absurd (ground (arith, bad))
        | inl (next, went) ↦
            let step = merge_agent-Merged lib k first m e went in
            let after : merge_all lib k first next es ≡ ok n = ground (arith, went) in
            let gathered : Gathered (done ++ e ∷ []) step.histogram =
              merge-Gathered done e m.merged_histogram step.decoded e.agent_name "global" held
                (decode-to_histogram e.agent_name "global" e.metrics step.decodes) step.merges in
            subst (λ l. Holding l n.merged_histogram) (append_assoc done (e ∷ []) es)
              (merge_all-Holding k first next (done ++ e ∷ []) es after
                (subst (Holding (done ++ e ∷ [])) (sym step.keeps) gathered))
      ]

  -- After at least one report a histogram is held.
  pub Holding-some :
      (e : AgentEvidence) (es : List AgentEvidence) (o : Option lib.Histogram)
      → Holding (e ∷ es) o
      → (h : lib.Histogram) × (o ≡ some h) × Gathered (e ∷ es) h
  Holding-some e es none held = absurd (ground (arith, held))
  Holding-some e es (some h) held = (h, refl, held)
