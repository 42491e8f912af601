-- ===== src/Distributed/Aggregate/Tools.antt =====
-- The metrics per tool in `aggregate_evidence` (crates/distributed/src/aggregate.rs).
use mcp_loadtest.Base.{
  ℕ, ◌+◌, String, Bool, ◌||◌, List, [], ◌∷◌, some, ok, ◌≡◌, arith, any, str_eq, str_eq_iff,
  if◌then◌else◌, ◌⊎◌, Result-cases, inl, inr, length,
}
use mcp_loadtest.Base.Order.{str_ord, same_iff}
use mcp_loadtest.Base.Map.{get, insert, get-insert}
use mcp_loadtest.Base.Sets.{holds, holds-insert}
use mcp_loadtest.Core.Metrics.{CallOutcome, OutcomeCounts, ScenarioMetrics}
use mcp_loadtest.Distributed.Evidence.{AgentEvidence, MetricsEvidence}
use mcp_loadtest.Distributed.Aggregate.Types.{Histograms, AggregatedEvidence}
use mcp_loadtest.Distributed.Aggregate.Sums.{count, add_outcomes_exact}
use mcp_loadtest.Distributed.Aggregate.Payload.{summarize}
use mcp_loadtest.Distributed.Aggregate.Exact.{total, count-none}
use mcp_loadtest.Distributed.Aggregate.Steps.{merge_agent-Merged, merge_tool-ToolMerged}
use mcp_loadtest.Distributed.Aggregate.{
  Merge, Tools, nothing, or_none, merge_tool, merge_tools, merge_agent, merge_all, finish,
  summarize_tools, aggregate_evidence,
}

-- What an agent counted for a tool.
abbrev pub of_tool : CallOutcome → String → List (String × MetricsEvidence) → ℕ
of_tool c tool [] = 0
of_tool c tool ((t, m) ∷ rest) =
    (if str_eq t tool then count c m.outcomes else 0) + of_tool c tool rest

abbrev pub has_tool : String → List (String × MetricsEvidence) → Bool
has_tool tool reported = any (λ m. str_eq m.0 tool) reported

module _ (lib : Histograms) (tool : String) where
  -- From `m` to `n` the tool's counters grew by `more`.
  record Grew (c : CallOutcome) (m n : Tools lib) (more : ℕ) (seen : Bool) : Type 0 where
    counted : count c (or_none (get tool n.1)) ≡ count c (or_none (get tool m.1)) + more
    there : holds tool n.0 ≡ (holds tool m.0 || seen)

  merge_tool-Grew :
      (c : CallOutcome) (agent : String) (m : Tools lib) (t : String) (e : MetricsEvidence)
      {n : Tools lib}
      → merge_tool lib agent m t e ≡ ok n
      → Grew c m n (if str_eq t tool then count c e.outcomes else 0) (str_eq t tool)
  merge_tool-Grew c agent m t e h =
      let step = merge_tool-ToolMerged lib agent m t e h in
      record {
        counted = ground (
          arith,
          step.outcomes,
          add_outcomes_exact c (or_none (get t m.1)) e.outcomes step.adds,
          get-insert tool t step.total m.1,
          same_iff tool t,
          str_eq_iff t tool,
        );
        there = ground (
          arith,
          step.histograms,
          holds-insert tool t step.histogram m.0,
          same_iff tool t,
          str_eq_iff t tool,
        );
      }

  merge_tools-Grew :
      (c : CallOutcome) (agent : String) (es : List (String × MetricsEvidence)) (m : Tools lib)
      {n : Tools lib}
      → merge_tools lib agent es m ≡ ok n
      → Grew c m n (of_tool c tool es) (has_tool tool es)
  unfolding merge_tools
  merge_tools-Grew c agent [] m h = record { counted = ground arith; there = ground arith }
  merge_tools-Grew c agent ((t, e) ∷ es) m {n} h =
      elim (Result-cases (merge_tool lib agent m t e)) [
        | inr (x, bad) ↦ absurd (ground (arith, bad))
        | inl (next, good) ↦
            let first = merge_tool-Grew c agent m t e good in
            let rest : Grew c next n (of_tool c tool es) (has_tool tool es) =
              merge_tools-Grew c agent es next (ground (arith, good)) in
            record {
              counted = ground (arith, first.counted, rest.counted);
              there = ground (arith, first.there, rest.there);
            }
      ]

  abbrev held : Merge lib → Tools lib
  held m = (m.per_tool_histograms, m.per_tool_outcomes)

  merge_all-Grew :
      (c : CallOutcome) (k : ℕ) (first : AgentEvidence) (m : Merge lib) (es : List AgentEvidence)
      {n : Merge lib}
      → merge_all lib k first m es ≡ ok n
      → Grew c
          (held m)
          (held n)
          (total (λ e. of_tool c tool e.per_tool) es)
          (any (λ e. has_tool tool e.per_tool) es)
  unfolding merge_all
  merge_all-Grew c k first m [] h = record { counted = ground arith; there = ground arith }
  merge_all-Grew c k first m (e ∷ es) {n} h = elim (Result-cases (merge_agent lib k first m e)) [
    | inr (x, bad) ↦ absurd (ground (arith, bad))
    | inl (next, good) ↦
        let now =
          merge_tools-Grew c e.agent_name e.per_tool (held m)
            (merge_agent-Merged lib k first m e good).tools in
        let rest : Grew c (held next) (held n) (total (λ e. of_tool c tool e.per_tool) es)
            (any (λ e. has_tool tool e.per_tool) es) =
          merge_all-Grew c k first next es {n = n} (ground (arith, good)) in
        record {
          counted = ground (arith, now.counted, rest.counted);
          there = ground (arith, now.there, rest.there);
        }
  ]

  -- What stands under the tool is what was there before or the summary of its counters.
  record Listed (os : List (String × OutcomeCounts))
      (before after : List (String × ScenarioMetrics)) (seen : Bool) : Type 0 where
    there : holds tool after ≡ (seen || holds tool before)
    value :
        (m : ScenarioMetrics)
        → get tool after ≡ some m
        → (m.outcomes ≡ or_none (get tool os)) ⊎ (get tool before ≡ some m)

  summarize_outcomes :
      (h : lib.Histogram) (o : OutcomeCounts) (elapsed : ℕ) {m : ScenarioMetrics}
      → summarize lib h o elapsed ≡ ok m
      → m.outcomes ≡ o
  unfolding summarize
  summarize_outcomes h o elapsed good = ground arith

  summarize_tools-Listed :
      (hs : List (String × lib.Histogram)) (os : List (String × OutcomeCounts)) (elapsed : ℕ)
      (before : List (String × ScenarioMetrics)) {after : List (String × ScenarioMetrics)}
      → summarize_tools lib hs os elapsed before ≡ ok after
      → Listed os before after (holds tool hs)
  unfolding summarize_tools get
  summarize_tools-Listed [] os elapsed before h = record {
    there = ground arith;
    value = λ m e. ground arith;
  }
  summarize_tools-Listed ((t, g) ∷ hs) os elapsed before {after} h =
      elim (Result-cases (summarize lib g (or_none (get t os)) elapsed)) [
        | inr (x, bad) ↦ absurd (ground (arith, bad))
        | inl (s, good) ↦
            let rest : Listed os (insert t s before) after (holds tool hs) =
              summarize_tools-Listed hs os elapsed (insert t s before) (ground (arith, good)) in
            record {
              there = ground (arith, rest.there, holds-insert tool t s before);
              value = λ m e. ground (
                arith,
                rest.value m e,
                get-insert tool t s before,
                same_iff tool t,
                summarize_outcomes g (or_none (get t os)) elapsed good,
              );
            }
      ]

  -- The result has the tool exactly if some agent reported it, with the sums of its counters.
  record Reported (es : List AgentEvidence) (r : AggregatedEvidence) : Type 0 where
    there : holds tool r.per_tool ≡ any (λ e. has_tool tool e.per_tool) es
    counted :
        (c : CallOutcome) (m : ScenarioMetrics)
        → get tool r.per_tool ≡ some m
        → count c m.outcomes ≡ total (λ e. of_tool c tool e.per_tool) es

  finish_tools :
      (first : AgentEvidence) (m : Merge lib) {r : AggregatedEvidence}
      → finish lib first m ≡ ok r
      → summarize_tools lib m.per_tool_histograms m.per_tool_outcomes m.measurement_elapsed_ms []
        ≡ ok r.per_tool
  unfolding finish
  finish_tools first m h = ground arith

  aggregate-Reported :
      (es : List AgentEvidence) {r : AggregatedEvidence}
      → aggregate_evidence lib es ≡ ok r
      → Reported es r
  unfolding aggregate_evidence get
  aggregate-Reported [] h = cc
  aggregate-Reported (first ∷ rest) {r} h =
      elim (Result-cases
        (merge_all lib (length (first ∷ rest)) first (nothing lib) (first ∷ rest))) [
          | inr (x, bad) ↦ absurd (ground (arith, bad))
          | inl (m, good) ↦
              let grew = λ (c : CallOutcome).
                merge_all-Grew c (length (first ∷ rest)) first (nothing lib) (first ∷ rest) {n = m}
                  good in
              let listed =
                summarize_tools-Listed m.per_tool_histograms m.per_tool_outcomes
                  m.measurement_elapsed_ms []
                  (finish_tools first m {r = r} (ground (arith, good))) in
              record {
                there = ground (arith, listed.there, (grew CallOutcome.success).there);
                counted = λ c s e. ground (arith, listed.value s e, (grew c).counted, count-none c);
              }
        ]

  -- If aggregation succeeds, the result has an entry for a tool exactly if some agent reported one, and
  -- each counter of the entry is the exact sum over the reports of all agents for that tool.
  pub aggregate_evidence-per_tool :
      (es : List AgentEvidence) {r : AggregatedEvidence}
      → aggregate_evidence lib es ≡ ok r
      → (holds tool r.per_tool ≡ any (λ e. has_tool tool e.per_tool) es)
        × ((c : CallOutcome) (m : ScenarioMetrics)
            → get tool r.per_tool ≡ some m
            → count c m.outcomes ≡ total (λ e. of_tool c tool e.per_tool) es)
  aggregate_evidence-per_tool es h =
      let reported = aggregate-Reported es h in (reported.there, λ c m e. reported.counted c m e)
