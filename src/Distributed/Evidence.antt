-- ===== src/Distributed/Evidence.antt =====
-- crates/distributed/src/aggregate.rs: what a worker reports.
use mcp_loadtest.Base.{ℕ, String, List}
use mcp_loadtest.Core.Metrics.{OutcomeCounts}
use mcp_loadtest.Core.Outcome.{ScenarioOutcome}
use mcp_loadtest.Distributed.Plan.{AgentShard}

pub record HistogramEvidence : Type 0 where
  pub encoding : String
  pub payload : String
  pub count : ℕ

pub record MetricsEvidence : Type 0 where
  pub latency : HistogramEvidence
  pub outcomes : OutcomeCounts

pub record AgentEvidence : Type 0 where
  pub agent_name : String
  pub shard : AgentShard
  pub metrics : MetricsEvidence
  pub per_tool : List (String × MetricsEvidence)
  pub scenario_outcome : ScenarioOutcome
  pub measurement_elapsed_ms : ℕ
  pub start_delay_ms : ℕ
  pub target_protocol_version : String
  pub tool_inventory_hash : String
