-- ===== src/Distributed/Worker/Types.antt =====
-- crates/distributed/src/state.rs: the worker's data and its errors.
use mcp_loadtest.Base.{String, Bool, true, false, Option}
use mcp_loadtest.Distributed.Wire.{HelloFrame, PrepareFrame, StartFrame, CancelFrame}

-- `AgentPhase`
pub data Phase : Type 0 where
  awaiting_prepare preparing ready running finished failed cancelling cancelled : Phase

-- `AgentDirective`
pub data Directive : Type 0 where
  prepare : PrepareFrame → Directive
  start : StartFrame → Directive
  cancel : CancelFrame → Directive

-- `AgentStateMachine`
pub record Machine : Type 0 where
  pub hello : HelloFrame
  pub phase : Phase
  pub job_id : Option String
  pub bound_agent_name : Option String

-- `AgentStateError`
pub data Error : Type 0 where
  unsupported_protocol : (protocol : String) → Error
  job_mismatch : (expected got : String) → Error
  agent_mismatch : (expected got : String) → Error
  job_not_prepared : Error
  wrong_phase : (expected actual : Phase) → Error
  unexpected_frame : (phase : Phase) (message : String) → Error
  evidence : (text : String) → Error

abbrev pub phase_eq : Phase → Phase → Bool
phase_eq awaiting_prepare awaiting_prepare = true
phase_eq preparing preparing = true
phase_eq ready ready = true
phase_eq running running = true
phase_eq finished finished = true
phase_eq failed failed = true
phase_eq cancelling cancelling = true
phase_eq cancelled cancelled = true
phase_eq _ _ = false
