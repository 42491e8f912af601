-- ===== src/Distributed/Plan.antt =====
-- crates/distributed/src/protocol.rs: what a job asks of its workers.
use Prim.Native.Nat.{bit_xor}
use mcp_loadtest.Base.{ℕ, String, Bool, List, Option}
use mcp_loadtest.Base.Float.{F64}
use mcp_loadtest.Base.Json.{Value}

pub data SupportedScenario : Type 0 where
  sustained pattern : SupportedScenario

pub data PatternErrorPolicy : Type 0 where
  continue abort : PatternErrorPolicy

pub data RemoteTransport : Type 0 where
  http sse ws : RemoteTransport

-- crates/core/src/config/mod.rs
pub data TokenEndpointAuthMethod : Type 0 where
  auto none client_secret_basic client_secret_post : TokenEndpointAuthMethod

pub record PatternStepPlan : Type 0 where
  pub tool : String
  pub args : Value

pub record PatternPlan : Type 0 where
  pub name : String
  pub weight : F64
  pub think_time_ms : ℕ
  pub on_step_error : PatternErrorPolicy
  pub steps : List PatternStepPlan

pub record AgentShard : Type 0 where
  pub agent_name : String
  pub index : ℕ  -- u32
  pub agent_count : ℕ  -- u32
  pub concurrency : ℕ  -- u32

pub record WorkloadPlan : Type 0 where
  pub scenario : SupportedScenario
  pub global_concurrency : ℕ
  pub duration_ms : ℕ
  pub patterns : List PatternPlan
  pub seed : ℕ

pub record AgentWorkloadPlan : Type 0 where
  pub scenario : SupportedScenario
  pub concurrency : ℕ
  pub duration_ms : ℕ
  pub patterns : List PatternPlan
  pub seed : ℕ

unfoldable pub for_shard : WorkloadPlan → AgentShard → AgentWorkloadPlan
for_shard plan shard = record {
  scenario = plan.scenario;
  concurrency = shard.concurrency;
  duration_ms = plan.duration_ms;
  patterns = plan.patterns;
  seed = bit_xor plan.seed shard.index;
}

pub record RemoteClientCredentialsAuth : Type 0 where
  pub client_id : String
  pub client_secret_env : String
  pub token_endpoint_auth_method : TokenEndpointAuthMethod
  pub scopes : List String
  pub offline_access : Bool
  pub max_step_up_retries : ℕ  -- u8

pub record RemoteTarget : Type 0 where
  pub transport : RemoteTransport
  pub url : String
  pub startup_timeout_ms : ℕ
  pub protocol_version : Option String
  pub headers_from_env : List (String × String)
  pub allowed_hosts : List String
  pub strict_validation : Bool
  pub auth : Option RemoteClientCredentialsAuth
