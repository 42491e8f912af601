-- ===== src/Distributed/Aggregate.antt =====
-- crates/distributed/src/aggregate.rs: `aggregate_evidence`. Its `let mut` variables are the fields of
-- `Merge`; a failure drops them, so the loop returns them only on success.
pub mod Types
pub mod Counters
pub mod Payload
pub mod Sums
pub mod Bounds
pub mod Steps
pub mod Exact
pub mod Roundtrip
pub mod Cohort
pub mod Tools
pub mod Gathered
pub mod Latency
mod Tests
use mcp_loadtest.Base.{
  ℕ, min, max, ◌-◌, String, Bool, true, false, not, ◌&&◌, ◌||◌, List, [], ◌∷◌, Option, none, some,
  Result, ok, err, ok_or, reject, ◌>>=◌, ◌>>◌, ltb, leb, ◌==◌, length, str_eq,
}
use mcp_loadtest.Base.Order.{Ord, str_ord, nat_ord}
use mcp_loadtest.Base.Map.{get, insert, keys}
use mcp_loadtest.Base.Sets.{holds}
use mcp_loadtest.Base.Checked.{u32_limit, u64_limit}
use mcp_loadtest.Core.Metrics.{OutcomeCounts, no_outcomes, ScenarioMetrics}
use mcp_loadtest.Core.Outcome.{ScenarioOutcome, no_outcome}
use mcp_loadtest.Distributed.Evidence.{MetricsEvidence, AgentEvidence}
use Types.{
  Histograms, AggregatedEvidence, Error, empty_cohort, duplicate_agent, shard_identity_mismatch,
  invalid_shard, target_protocol_mismatch, tool_inventory_mismatch, counter_overflow,
  missing_measurement_interval,
}
use Counters.{add_counter, add_outcomes, add_scenario_outcome, outcome_total}
use Payload.{decode_validated_metrics, merge_histogram, summarize}

abbrev pub or_none : Option OutcomeCounts → OutcomeCounts
or_none none = no_outcomes
or_none (some o) = o

module _ (lib : Histograms) where
  pub record Merge : Type 0 where
    pub names : List (String × Unit {0})
    pub shard_indices : List (ℕ × Unit {0})
    pub global_concurrency : ℕ
    pub min_start_delay : ℕ
    pub max_start_delay : ℕ
    pub measurement_elapsed_ms : ℕ
    pub merged_histogram : Option lib.Histogram
    pub outcomes : OutcomeCounts
    pub scenario_outcome : ScenarioOutcome
    pub per_tool_histograms : List (String × lib.Histogram)
    pub per_tool_outcomes : List (String × OutcomeCounts)

  abbrev pub nothing : Merge
  nothing = record {
    names = [];
    shard_indices = [];
    global_concurrency = 0;
    min_start_delay = u64_limit - 1;
    max_start_delay = 0;
    measurement_elapsed_ms = 0;
    merged_histogram = none;
    outcomes = no_outcomes;
    scenario_outcome = no_outcome;
    per_tool_histograms = [];
    per_tool_outcomes = [];
  }

  -- The checks at the head of the loop, against the first agent's target.
  unfoldable pub check_agent : ℕ → AgentEvidence → Merge → AgentEvidence → Result Error (Unit {0})
  check_agent count first m a = do
    reject (holds a.agent_name m.names) (duplicate_agent a.agent_name)
    reject (not (str_eq a.agent_name a.shard.agent_name))
        (shard_identity_mismatch a.agent_name a.shard.agent_name)
    reject
        (not (a.shard.agent_count == count)
          || leb count a.shard.index
          || a.shard.concurrency == 0
          || holds a.shard.index m.shard_indices)
        (invalid_shard a.agent_name)
    reject (not (str_eq a.target_protocol_version first.target_protocol_version)) (
        target_protocol_mismatch first.target_protocol_version a.target_protocol_version
          a.agent_name)
    reject (not (str_eq a.tool_inventory_hash first.tool_inventory_hash))
        (tool_inventory_mismatch a.agent_name)

  abbrev pub Tools : Type 0
  Tools = List (String × lib.Histogram) × List (String × OutcomeCounts)

  unfoldable pub merge_tool : String → Tools → String → MetricsEvidence → Result Error Tools
  merge_tool agent (histograms, outcomes) tool metrics = do
    histogram ← decode_validated_metrics lib agent tool metrics
    merged ← merge_histogram lib (get tool histograms) histogram agent tool
    total ← add_outcomes (or_none (get tool outcomes)) metrics.outcomes
    ok (insert tool merged histograms, insert tool total outcomes)

  unfoldable pub merge_tools : String → List (String × MetricsEvidence) → Tools → Result Error Tools
  merge_tools agent [] tools = ok tools
  merge_tools agent ((tool, metrics) ∷ rest) tools = do
    next ← merge_tool agent tools tool metrics
    merge_tools agent rest next

  unfoldable pub merge_agent : ℕ → AgentEvidence → Merge → AgentEvidence → Result Error Merge
  merge_agent count first m a = do
    check_agent count first m a
    concurrency ←
        add_counter u32_limit "global_concurrency" m.global_concurrency a.shard.concurrency
    decoded ← decode_validated_metrics lib a.agent_name "global" a.metrics
    histogram ← merge_histogram lib m.merged_histogram decoded a.agent_name "global"
    outcomes ← add_outcomes m.outcomes a.metrics.outcomes
    scenario ← add_scenario_outcome m.scenario_outcome a.scenario_outcome a.agent_name
    tools ← merge_tools a.agent_name a.per_tool (m.per_tool_histograms, m.per_tool_outcomes)
    ok (record {
      names = insert a.agent_name tt m.names;
      shard_indices = insert a.shard.index tt m.shard_indices;
      global_concurrency = concurrency;
      min_start_delay = min m.min_start_delay a.start_delay_ms;
      max_start_delay = max m.max_start_delay a.start_delay_ms;
      measurement_elapsed_ms = max m.measurement_elapsed_ms a.measurement_elapsed_ms;
      merged_histogram = some histogram;
      outcomes = outcomes;
      scenario_outcome = scenario;
      per_tool_histograms = tools.0;
      per_tool_outcomes = tools.1;
    })

  unfoldable pub merge_all : ℕ → AgentEvidence → Merge → List AgentEvidence → Result Error Merge
  merge_all count first m [] = ok m
  merge_all count first m (a ∷ rest) = do
    next ← merge_agent count first m a
    merge_all count first next rest

  -- `per_tool_outcomes.remove(&tool).unwrap_or_default()` for each tool, whose names are distinct.
  unfoldable pub summarize_tools :
      List (String × lib.Histogram)
      → List (String × OutcomeCounts)
      → ℕ
      → List (String × ScenarioMetrics)
      → Result Error (List (String × ScenarioMetrics))
  summarize_tools [] outcomes elapsed done = ok done
  summarize_tools ((tool, histogram) ∷ rest) outcomes elapsed done = do
    metrics ← summarize lib histogram (or_none (get tool outcomes)) elapsed
    summarize_tools rest outcomes elapsed (insert tool metrics done)

  -- What follows the loop. The names of a `BTreeSet` are sorted already.
  unfoldable pub finish : AgentEvidence → Merge → Result Error AggregatedEvidence
  finish first m = do
    histogram ← ok_or m.merged_histogram empty_cohort
    total ← outcome_total m.outcomes
    reject (ltb 0 total && m.measurement_elapsed_ms == 0) missing_measurement_interval
    metrics ← summarize lib histogram m.outcomes m.measurement_elapsed_ms
    per_tool ← summarize_tools m.per_tool_histograms m.per_tool_outcomes m.measurement_elapsed_ms []
    ok (record {
      agent_names = keys m.names;
      global_concurrency = m.global_concurrency;
      metrics = metrics;
      per_tool = per_tool;
      scenario_outcome = m.scenario_outcome;
      measurement_elapsed_ms = m.measurement_elapsed_ms;
      start_skew_ms = m.max_start_delay - m.min_start_delay;
      target_protocol_version = first.target_protocol_version;
      tool_inventory_hash = first.tool_inventory_hash;
    })

  unfoldable pub aggregate_evidence : List AgentEvidence → Result Error AggregatedEvidence
  aggregate_evidence [] = err empty_cohort
  aggregate_evidence (first ∷ rest) = do
    reject (leb u32_limit (length (first ∷ rest))) (counter_overflow "agent_count")
    merged ← merge_all (length (first ∷ rest)) first nothing (first ∷ rest)
    finish first merged
