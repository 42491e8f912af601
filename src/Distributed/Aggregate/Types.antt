-- ===== src/Distributed/Aggregate/Types.antt =====
-- crates/distributed/src/aggregate.rs: the aggregate, its errors, and what the code uses of the
-- histogram and base64 libraries.
use mcp_loadtest.Base.{ℕ, String, List, Option, Result}
use mcp_loadtest.Base.Float.{F64}
use mcp_loadtest.Core.Metrics.{ScenarioMetrics}
use mcp_loadtest.Core.Outcome.{ScenarioOutcome}

-- The crates `hdrhistogram` (`Histogram<u64>`, its V2 serializer and its deserializer, which also
-- tells how far it read) and `base64` (`STANDARD_NO_PAD`). Errors are their texts.
pub record Histograms : Type 1 where
  pub Histogram : Type 0
  pub Bytes : Type 0
  pub byte_count : Bytes → ℕ
  pub serialize : Histogram → Result String Bytes
  pub deserialize : Bytes → Result String (Histogram × ℕ)
  pub encode : Bytes → String
  pub decode : String → Result String Bytes
  pub len : Histogram → ℕ
  pub low : Histogram → ℕ
  pub high : Histogram → ℕ
  pub sigfig : Histogram → ℕ
  pub add : Histogram → Histogram → Option Histogram
  pub value_at_quantile : Histogram → F64 → ℕ
  pub mean : Histogram → F64
  pub min : Histogram → ℕ
  pub max : Histogram → ℕ

pub record AggregatedEvidence : Type 0 where
  pub agent_names : List String
  pub global_concurrency : ℕ
  pub metrics : ScenarioMetrics
  pub per_tool : List (String × ScenarioMetrics)
  pub scenario_outcome : ScenarioOutcome
  pub measurement_elapsed_ms : ℕ
  pub start_skew_ms : ℕ
  pub target_protocol_version : String
  pub tool_inventory_hash : String

-- `AggregateError`
pub data Error : Type 0 where
  empty_cohort : Error
  duplicate_agent : (agent : String) → Error
  shard_identity_mismatch : (agent shard_agent : String) → Error
  invalid_shard : (agent : String) → Error
  target_protocol_mismatch : (expected actual agent : String) → Error
  tool_inventory_mismatch : (agent : String) → Error
  unsupported_histogram_encoding : (encoding : String) → Error
  histogram_encode : (text : String) → Error
  histogram_decode : (text : String) → Error
  trailing_histogram_data : Error
  histogram_too_large : (bytes limit : ℕ) → Error
  histogram_count_mismatch : (declared decoded : ℕ) → Error
  histogram_layout_mismatch : (agent scope : String) → Error
  latency_outcome_mismatch : (agent scope : String) (histogram outcomes : ℕ) → Error
  counter_overflow : (counter : String) → Error
  missing_measurement_interval : Error
