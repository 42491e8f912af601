-- ===== src/Core/Thresholds.antt =====
-- `ThresholdsConfig` of crates/core/src/config/mod.rs and `ToolSlo` of crates/core/src/config/tool_slo.rs.
use mcp_loadtest.Base.{ℕ, List, Option, String}
use mcp_loadtest.Base.Float.{F64}

pub record ToolSlo : Type 0 where
  pub tool : String
  pub p99_latency : ℕ

pub record ThresholdsConfig : Type 0 where
  pub p50_latency : Option ℕ
  pub p95_latency : Option ℕ
  pub p99_latency : Option ℕ
  pub p999_latency : Option ℕ
  pub error_rate : Option F64
  pub hang_timeout : Option ℕ
  pub memory_growth_mb : Option F64
  pub rss_leak_mb_per_sec : Option F64
  pub tool_slos : List ToolSlo
