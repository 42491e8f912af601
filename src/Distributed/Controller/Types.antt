-- ===== src/Distributed/Controller/Types.antt =====
-- crates/distributed/src/state.rs: the controller's data and its errors.
use mcp_loadtest.Base.{ℕ, String, Bool, true, false, List, Option, Result}
use mcp_loadtest.Distributed.Evidence.{AgentEvidence}
use mcp_loadtest.Distributed.Wire.{PrepareFrame, FailedFrame, WireFrame}

-- `ControllerAgentPhase`
pub data Phase : Type 0 where
  awaiting_hello preparing ready running finished failed cancelling cancelled : Phase

pub record AgentState : Type 0 where
  pub phase : Phase
  pub prepare : PrepareFrame
  pub latest_progress : Option (ℕ × AgentEvidence)
  pub final_evidence : Option AgentEvidence
  pub failure : Option FailedFrame

-- The target revision and the tool inventory that the first ready worker saw.
abbrev pub Signature : Type 0
Signature = String × String

pub record JobState : Type 0 where
  pub job_id : String
  pub agents : List (String × AgentState)
  pub ready_signature : Option Signature

pub data Error : Type 0 where
  empty_cohort : Error
  duplicate_agent : (name : String) → Error
  unknown_agent : (name : String) → Error
  unsupported_protocol : (protocol : String) → Error
  job_mismatch : (expected got : String) → Error
  agent_mismatch : (expected got : String) → Error
  capability_mismatch : (agent : String) → Error
  readiness_shortfall : (agent : String) (requested live : ℕ) → Error
  target_protocol_mismatch : (agent expected got : String) → Error
  tool_inventory_mismatch : (agent : String) → Error
  unexpected_frame : (agent : String) (phase : Phase) (message : String) → Error
  cohort_not_ready : Error
  missing_final_evidence : (agent : String) → Error
  evidence : (text : String) → Error

abbrev pub is_ready : Phase → Bool
is_ready ready = true
is_ready _ = false

abbrev pub is_failed : Phase → Bool
is_failed failed = true
is_failed _ = false

-- `Finished | Failed | Cancelled`
abbrev pub is_ended : Phase → Bool
is_ended finished = true
is_ended failed = true
is_ended cancelled = true
is_ended _ = false

-- What one frame does to the agent that sent it, to the job's signature, and what it is answered.
pub record Handled : Type 0 where
  pub agent : AgentState
  pub signature : Option Signature
  pub reply : Result Error (Option WireFrame)
