-- ===== src/Distributed/Aggregate/Steps.antt =====
-- What a successful round of the loop of `aggregate_evidence` (crates/distributed/src/aggregate.rs) did.
use mcp_loadtest.Base.{ℕ, min, max, String, some, ok, Result-cases, inl, inr, ◌≡◌, arith}
use mcp_loadtest.Base.Order.{str_ord, nat_ord}
use mcp_loadtest.Base.Map.{get, insert}
use mcp_loadtest.Base.Checked.{u32_limit}
use mcp_loadtest.Core.Metrics.{OutcomeCounts}
use mcp_loadtest.Distributed.Evidence.{AgentEvidence, MetricsEvidence}
use mcp_loadtest.Distributed.Aggregate.Types.{Histograms}
use mcp_loadtest.Distributed.Aggregate.Counters.{add_counter, add_outcomes, add_scenario_outcome}
use mcp_loadtest.Distributed.Aggregate.Payload.{decode_validated_metrics, merge_histogram}
use mcp_loadtest.Distributed.Aggregate.{
  Merge, Tools, or_none, check_agent, merge_tool, merge_tools, merge_agent,
}

module _ (lib : Histograms) where
  pub record Merged (count : ℕ) (first : AgentEvidence) (m : Merge lib) (a : AgentEvidence)
      (n : Merge lib) : Type 0 where
    pub checked : check_agent lib count first m a ≡ ok tt
    pub concurrency :
        add_counter u32_limit "global_concurrency" m.global_concurrency a.shard.concurrency
        ≡ ok n.global_concurrency
    pub decoded : lib.Histogram
    pub histogram : lib.Histogram
    pub decodes : decode_validated_metrics lib a.agent_name "global" a.metrics ≡ ok decoded
    pub merges : merge_histogram lib m.merged_histogram decoded a.agent_name "global" ≡ ok histogram
    pub keeps : n.merged_histogram ≡ some histogram
    pub outcomes : add_outcomes m.outcomes a.metrics.outcomes ≡ ok n.outcomes
    pub scenario :
        add_scenario_outcome m.scenario_outcome a.scenario_outcome a.agent_name
        ≡ ok n.scenario_outcome
    pub tools :
        merge_tools lib a.agent_name a.per_tool (m.per_tool_histograms, m.per_tool_outcomes)
        ≡ ok (n.per_tool_histograms, n.per_tool_outcomes)
    pub names : n.names ≡ insert a.agent_name tt m.names
    pub indices : n.shard_indices ≡ insert a.shard.index tt m.shard_indices
    pub min_delay : n.min_start_delay ≡ min m.min_start_delay a.start_delay_ms
    pub max_delay : n.max_start_delay ≡ max m.max_start_delay a.start_delay_ms
    pub elapsed : n.measurement_elapsed_ms ≡ max m.measurement_elapsed_ms a.measurement_elapsed_ms

  pub merge_agent-Merged :
      (count : ℕ) (first : AgentEvidence) (m : Merge lib) (a : AgentEvidence) {n : Merge lib}
      → merge_agent lib count first m a ≡ ok n
      → Merged count first m a n
  unfolding merge_agent
  merge_agent-Merged count first m a {n} h =
      elim (Result-cases (decode_validated_metrics lib a.agent_name "global" a.metrics)) [
        | inr (e, bad) ↦ absurd (ground (arith, bad))
        | inl (d, decodes) ↦
            elim (Result-cases (merge_histogram lib m.merged_histogram d a.agent_name "global")) [
              | inr (e, bad) ↦ absurd (ground (arith, bad, decodes))
              | inl (g, merges) ↦ record {
                checked = ground arith;
                concurrency = ground arith;
                decoded = d;
                histogram = g;
                decodes = decodes;
                merges = merges;
                keeps = ground arith;
                outcomes = ground arith;
                scenario = ground arith;
                tools = ground arith;
                names = ground arith;
                indices = ground arith;
                min_delay = ground arith;
                max_delay = ground arith;
                elapsed = ground arith;
              }
            ]
      ]

  pub record ToolMerged (agent : String) (m : Tools lib) (tool : String) (e : MetricsEvidence)
      (n : Tools lib) : Type 0 where
    pub decoded : lib.Histogram
    pub histogram : lib.Histogram
    pub total : OutcomeCounts
    pub decodes : decode_validated_metrics lib agent tool e ≡ ok decoded
    pub merges : merge_histogram lib (get tool m.0) decoded agent tool ≡ ok histogram
    pub adds : add_outcomes (or_none (get tool m.1)) e.outcomes ≡ ok total
    pub histograms : n.0 ≡ insert tool histogram m.0
    pub outcomes : n.1 ≡ insert tool total m.1

  pub merge_tool-ToolMerged :
      (agent : String) (m : Tools lib) (tool : String) (e : MetricsEvidence) {n : Tools lib}
      → merge_tool lib agent m tool e ≡ ok n
      → ToolMerged agent m tool e n
  unfolding merge_tool
  merge_tool-ToolMerged agent (hs, os) tool e {n} h =
      elim (Result-cases (decode_validated_metrics lib agent tool e)) [
        | inr (x, bad) ↦ absurd (ground (arith, bad))
        | inl (d, decodes) ↦ elim (Result-cases (merge_histogram lib (get tool hs) d agent tool)) [
          | inr (x, bad) ↦ absurd (ground (arith, bad, decodes))
          | inl (g, merges) ↦
              elim (Result-cases (add_outcomes (or_none (get tool os)) e.outcomes)) [
                | inr (x, bad) ↦ absurd (ground (arith, bad, decodes, merges))
                | inl (o, adds) ↦ record {
                  decoded = d;
                  histogram = g;
                  total = o;
                  decodes = decodes;
                  merges = merges;
                  adds = adds;
                  histograms = ground arith;
                  outcomes = ground arith;
                }
              ]
        ]
      ]
