-- ===== src/Distributed/Aggregate/Exact.antt =====
-- `aggregate_evidence` (crates/distributed/src/aggregate.rs) loses and invents nothing.
use mcp_loadtest.Base.{
  ℕ, ◌+◌, ◌-◌, ◌<◌, min, max, String, List, [], ◌∷◌, map, ok, ◌≡◌, ap, sum, length, arith,
  Result-cases, inl, inr,
}
use mcp_loadtest.Base.Checked.{checked_add, u32_limit, u64_limit}
use mcp_loadtest.Core.Metrics.{CallOutcome, no_outcomes}
use mcp_loadtest.Core.Metrics.CallOutcome.{success, expected_rejection}
use mcp_loadtest.Core.Outcome.{ScenarioOutcome}
use mcp_loadtest.Distributed.Evidence.{AgentEvidence}
use mcp_loadtest.Distributed.Aggregate.Types.{Histograms, AggregatedEvidence}
use mcp_loadtest.Distributed.Aggregate.Counters.{outcome_total, add_counter}
use mcp_loadtest.Distributed.Aggregate.Sums.{
  count, add_counter_exact, add_outcomes_exact, outcome_total_exact, every_class, add_scenario-plus,
  plus_scenario,
}
use mcp_loadtest.Distributed.Aggregate.Bounds.{
  Tally, tally, tally_limit, add_outcomes_fits, add_scenario_fits,
}
use mcp_loadtest.Distributed.Aggregate.Payload.{summarize}
use mcp_loadtest.Distributed.Aggregate.Steps.{merge_agent-Merged}
use mcp_loadtest.Distributed.Aggregate.{
  Merge, nothing, merge_agent, merge_all, finish, aggregate_evidence,
}

tally-plus :
    (t : Tally) (a b : ScenarioOutcome) (agent : String)
    → tally t (plus_scenario a b agent) ≡ tally t a + tally t b
tally-plus t a b agent = ground arith

abbrev pub greatest : List ℕ → ℕ
greatest [] = 0
greatest (n ∷ ns) = max n (greatest ns)

abbrev pub least : ℕ → List ℕ → ℕ
least bound [] = bound
least bound (n ∷ ns) = least (min bound n) ns

pub count-none : (c : CallOutcome) → count c no_outcomes ≡ 0
count-none c = ground arith

abbrev pub total : (AgentEvidence → ℕ) → List AgentEvidence → ℕ
total f es = sum (map f es)

module _ (lib : Histograms) where
  -- From `m` to `n` the evidence of `es` was added.
  pub record Totals (m : Merge lib) (es : List AgentEvidence) (n : Merge lib) : Type 0 where
    pub outcomes :
        (c : CallOutcome)
        → count c n.outcomes ≡ count c m.outcomes + total (λ e. count c e.metrics.outcomes) es
    concurrency : n.global_concurrency ≡ m.global_concurrency + total (λ e. e.shard.concurrency) es
    scenario :
        (t : Tally)
        → tally t n.scenario_outcome
          ≡ tally t m.scenario_outcome + total (λ e. tally t e.scenario_outcome) es
    elapsed :
        n.measurement_elapsed_ms
        ≡ max m.measurement_elapsed_ms (greatest (map (λ e. e.measurement_elapsed_ms) es))
    latest : n.max_start_delay ≡ max m.max_start_delay (greatest (map (λ e. e.start_delay_ms) es))
    earliest : n.min_start_delay ≡ least m.min_start_delay (map (λ e. e.start_delay_ms) es)
    bounded : m.global_concurrency < u32_limit → n.global_concurrency < u32_limit
    outcomes_bounded :
        (c : CallOutcome) → count c m.outcomes < u64_limit → count c n.outcomes < u64_limit
    scenario_bounded :
        (t : Tally)
        → tally t m.scenario_outcome < tally_limit t
        → tally t n.scenario_outcome < tally_limit t

  pub merge_all-Totals :
      (k : ℕ) (first : AgentEvidence) (m : Merge lib) (es : List AgentEvidence) {n : Merge lib}
      → merge_all lib k first m es ≡ ok n
      → Totals m es n
  unfolding merge_all
  merge_all-Totals k first m [] h = record {
    outcomes = λ c. ground arith;
    concurrency = ground arith;
    scenario = λ t. ground arith;
    elapsed = ground arith;
    latest = ground arith;
    earliest = ground arith;
    bounded = λ b. ground arith;
    outcomes_bounded = λ c b. ground arith;
    scenario_bounded = λ t b. ground arith;
  }
  merge_all-Totals k first m (e ∷ es) {n} h = elim (Result-cases (merge_agent lib k first m e)) [
    | inr (x, bad) ↦ absurd (ground (arith, bad))
    | inl (next, good) ↦
        let step = merge_agent-Merged lib k first m e good in
        let rest : Totals next es n = merge_all-Totals k first next es (ground (arith, good)) in
        record {
          outcomes = λ c. ground (
            arith,
            rest.outcomes c,
            add_outcomes_exact c m.outcomes e.metrics.outcomes step.outcomes,
          );
          concurrency =
              ground (arith, rest.concurrency, add_counter_exact _ _ _ _ step.concurrency);
          scenario = λ t. ground (
            arith,
            rest.scenario t,
            ap (tally t) (add_scenario-plus _ _ _ step.scenario),
            tally-plus t m.scenario_outcome e.scenario_outcome e.agent_name,
          );
          elapsed = ground (arith, rest.elapsed, step.elapsed);
          latest = ground (arith, rest.latest, step.max_delay);
          earliest = ground (arith, rest.earliest, step.min_delay);
          bounded = λ _. rest.bounded (add_counter_exact _ _ _ _ step.concurrency).1;
          outcomes_bounded = λ c _. rest.outcomes_bounded c (add_outcomes_fits c _ _ step.outcomes);
          scenario_bounded =
              λ t _. rest.scenario_bounded t (add_scenario_fits t _ _ _ step.scenario);
        }
  ]

  pub record Finished (m : Merge lib) (r : AggregatedEvidence) : Type 0 where
    pub outcomes : r.metrics.outcomes ≡ m.outcomes
    scenario : r.scenario_outcome ≡ m.scenario_outcome
    concurrency : r.global_concurrency ≡ m.global_concurrency
    elapsed : r.measurement_elapsed_ms ≡ m.measurement_elapsed_ms
    skew : r.start_skew_ms ≡ m.max_start_delay - m.min_start_delay
    pub requests : outcome_total m.outcomes ≡ ok r.metrics.throughput.total_requests
    successful :
        r.metrics.throughput.successful_requests
        ≡ m.outcomes.success + m.outcomes.expected_rejection
    successful_fits : r.metrics.throughput.successful_requests < u64_limit

  pub finish-Finished :
      (first : AgentEvidence) (m : Merge lib) {r : AggregatedEvidence}
      → finish lib first m ≡ ok r
      → Finished m r
  unfolding finish summarize add_counter checked_add
  finish-Finished first m {r} h = record {
    outcomes = ground arith;
    scenario = ground arith;
    concurrency = ground arith;
    elapsed = ground arith;
    skew = ground arith;
    requests = ground arith;
    successful = ground arith;
    successful_fits = ground arith;
  }

  -- What the aggregate of `es` says about them.
  pub record Exact (es : List AgentEvidence) (r : AggregatedEvidence) : Type 0 where
    pub outcomes :
        (c : CallOutcome) → count c r.metrics.outcomes ≡ total (λ e. count c e.metrics.outcomes) es
    pub outcomes_fit : (c : CallOutcome) → count c r.metrics.outcomes < u64_limit
    pub scenario :
        (t : Tally) → tally t r.scenario_outcome ≡ total (λ e. tally t e.scenario_outcome) es
    pub scenario_fits : (t : Tally) → tally t r.scenario_outcome < tally_limit t
    pub concurrency : r.global_concurrency ≡ total (λ e. e.shard.concurrency) es
    pub concurrency_fits : r.global_concurrency < u32_limit
    pub elapsed : r.measurement_elapsed_ms ≡ greatest (map (λ e. e.measurement_elapsed_ms) es)
    pub skew :
        r.start_skew_ms
        ≡ greatest (map (λ e. e.start_delay_ms) es)
          - least (u64_limit - 1) (map (λ e. e.start_delay_ms) es)
    pub requests :
        r.metrics.throughput.total_requests
        ≡ sum (map (λ c. count c r.metrics.outcomes) every_class)
    pub requests_fit : r.metrics.throughput.total_requests < u64_limit
    pub successful :
        r.metrics.throughput.successful_requests
        ≡ count success r.metrics.outcomes + count expected_rejection r.metrics.outcomes
    pub successful_fits : r.metrics.throughput.successful_requests < u64_limit

  -- If aggregation succeeds, each class of outcomes, each scenario counter and the concurrency of the result
  -- is the exact sum over the agents, and the request counts are the sums of their classes. Each is within the
  -- bounds of its type: 32 bits for the concurrency and the scenario's hangs and deadlocks, 64 for all others.
  -- The interval is the longest of the agents' and the skew is between their greatest and least start delays.
  pub aggregate_evidence-Exact :
      (es : List AgentEvidence) {r : AggregatedEvidence}
      → aggregate_evidence lib es ≡ ok r
      → Exact es r
  unfolding aggregate_evidence
  aggregate_evidence-Exact [] h = cc
  aggregate_evidence-Exact (first ∷ rest) {r} h =
      elim (Result-cases
        (merge_all lib (length (first ∷ rest)) first (nothing lib) (first ∷ rest))) [
          | inr (x, bad) ↦ absurd (ground (arith, bad))
          | inl (m, good) ↦
              let sums : Totals (nothing lib) (first ∷ rest) m =
                merge_all-Totals _ first (nothing lib) (first ∷ rest) good in
              let end : Finished m r = finish-Finished first m (ground (arith, good)) in
              let (requests, fit) = outcome_total_exact m.outcomes end.requests in
              record {
                outcomes = λ c. ground (arith, end.outcomes, sums.outcomes c, count-none c);
                outcomes_fit =
                    λ c. ground (arith, end.outcomes, sums.outcomes_bounded c, count-none c);
                scenario = λ t. ground (arith, end.scenario, sums.scenario t);
                scenario_fits = λ t. ground (arith, end.scenario, sums.scenario_bounded t);
                concurrency = ground (arith, end.concurrency, sums.concurrency);
                concurrency_fits = ground (arith, end.concurrency, sums.bounded);
                elapsed = ground (arith, end.elapsed, sums.elapsed);
                skew = ground (arith, end.skew, sums.latest, sums.earliest);
                requests = ground (arith, requests, end.outcomes);
                requests_fit = fit;
                successful = ground (arith, end.successful, end.outcomes);
                successful_fits = end.successful_fits;
              }
        ]
