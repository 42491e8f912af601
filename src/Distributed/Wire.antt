-- ===== src/Distributed/Wire.antt =====
-- crates/distributed/src/protocol.rs: the frames of the control channel.
use mcp_loadtest.Base.{ℕ, String, Bool, List, Option, none, some}
use mcp_loadtest.Distributed.Plan.{SupportedScenario, AgentShard, AgentWorkloadPlan, RemoteTarget}
use mcp_loadtest.Distributed.Evidence.{AgentEvidence}

abbrev pub wire_protocol : String
wire_protocol = "mcp-loadtest-dist/1"

pub record HelloFrame : Type 0 where
  pub agent_name : Option String
  pub binary_version : String
  pub scenarios : List SupportedScenario
  pub max_concurrency : ℕ  -- u32

pub record PrepareFrame : Type 0 where
  pub job_id : String
  pub config_digest : String
  pub target : RemoteTarget
  pub plan : AgentWorkloadPlan
  pub shard : AgentShard
  pub heartbeat_interval_ms : ℕ

pub record ReadyFrame : Type 0 where
  pub job_id : String
  pub agent_name : String
  pub live_workers : ℕ  -- u32
  pub requested_workers : ℕ  -- u32
  pub tool_inventory_hash : String
  pub target_protocol_version : String

pub record StartFrame : Type 0 where
  pub job_id : String
  pub start_after_ms : ℕ

pub record ProgressFrame : Type 0 where
  pub job_id : String
  pub sequence : ℕ
  pub evidence : AgentEvidence

pub record HeartbeatFrame : Type 0 where
  pub job_id : String
  pub sequence : ℕ

pub record FinishedFrame : Type 0 where
  pub job_id : String
  pub evidence : AgentEvidence

pub record FailedFrame : Type 0 where
  pub job_id : String
  pub code : String
  pub message : String
  pub retryable : Bool

pub record CancelFrame : Type 0 where
  pub job_id : String
  pub reason : String

pub record CancelledFrame : Type 0 where
  pub job_id : String
  pub reason : String

pub data WireMessage : Type 0 where
  hello : HelloFrame → WireMessage
  prepare : PrepareFrame → WireMessage
  ready : ReadyFrame → WireMessage
  start : StartFrame → WireMessage
  progress : ProgressFrame → WireMessage
  heartbeat : HeartbeatFrame → WireMessage
  finished : FinishedFrame → WireMessage
  failed : FailedFrame → WireMessage
  cancel : CancelFrame → WireMessage
  cancelled : CancelledFrame → WireMessage

pub record WireFrame : Type 0 where
  pub protocol : String
  pub message : WireMessage

-- `WireFrame::new`
abbrev pub frame : WireMessage → WireFrame
frame m = record { protocol = wire_protocol; message = m }

unfoldable pub message_job_id : WireMessage → Option String
message_job_id (hello f) = none
message_job_id (prepare f) = some f.job_id
message_job_id (ready f) = some f.job_id
message_job_id (start f) = some f.job_id
message_job_id (progress f) = some f.job_id
message_job_id (heartbeat f) = some f.job_id
message_job_id (finished f) = some f.job_id
message_job_id (failed f) = some f.job_id
message_job_id (cancel f) = some f.job_id
message_job_id (cancelled f) = some f.job_id

unfoldable pub job_id : WireFrame → Option String
unfolding message_job_id
job_id f = message_job_id f.message

-- `message_name` of crates/distributed/src/state.rs
unfoldable pub message_name : WireMessage → String
message_name (hello f) = "hello"
message_name (prepare f) = "prepare"
message_name (ready f) = "ready"
message_name (start f) = "start"
message_name (progress f) = "progress"
message_name (heartbeat f) = "heartbeat"
message_name (finished f) = "finished"
message_name (failed f) = "failed"
message_name (cancel f) = "cancel"
message_name (cancelled f) = "cancelled"
