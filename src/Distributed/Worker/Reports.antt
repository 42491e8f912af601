-- ===== src/Distributed/Worker/Reports.antt =====
-- The frames that a worker sends once it is prepared: the methods of `AgentStateMachine`
-- (crates/distributed/src/state.rs) after `mark_ready`.
use mcp_loadtest.Base.{ℕ, String, Bool, true, false, some, Result, ok, ◌≡◌, arith}
use mcp_loadtest.Distributed.Evidence.{AgentEvidence}
use mcp_loadtest.Distributed.Wire.{WireFrame, WireMessage, ReadyFrame, frame}
use mcp_loadtest.Distributed.Controller.Types.{Error as ControllerError}
use mcp_loadtest.Distributed.Controller.Handlers.{validate_evidence_agent}
use mcp_loadtest.Distributed.Worker.Types.{Machine, Error, Phase}
use mcp_loadtest.Distributed.Worker.Types.Phase.{
  preparing, ready, running, finished, failed, cancelling, cancelled,
}
use mcp_loadtest.Distributed.Worker.{
  mark_ready, progress, heartbeat, finish, fail, cancelled_ack, check_running, is_live,
}

pub data Report : Type 0 where
  progresses : (sequence : ℕ) (evidence : AgentEvidence) → Report
  beats : (sequence : ℕ) → Report
  finishes : (evidence : AgentEvidence) → Report
  fails : (code message : String) (retryable : Bool) → Report
  acknowledges : (reason : String) → Report

-- The machine after a report, and the frame that it sends.
unfoldable pub emit : Machine → Report → Machine × Result Error WireFrame
unfolding progress heartbeat finish fail cancelled_ack
emit m (progresses n e) = (m, progress m n e)
emit m (beats n) = (m, heartbeat m n)
emit m (finishes e) = finish m e
emit m (fails code message retryable) = fail m code message retryable
emit m (acknowledges reason) = cancelled_ack m reason

abbrev pub is_running : Phase → Bool
is_running running = true
is_running _ = false

abbrev pub is_cancelling : Phase → Bool
is_cancelling cancelling = true
is_cancelling _ = false

-- In which phases a report is sent.
abbrev pub may_send : Phase → Report → Bool
may_send p (progresses n e) = is_running p
may_send p (beats n) = is_live p
may_send p (finishes e) = is_running p
may_send p (fails code message retryable) = true
may_send p (acknowledges reason) = is_cancelling p

abbrev pub phase_after : Phase → Report → Phase
phase_after p (progresses n e) = p
phase_after p (beats n) = p
phase_after p (finishes e) = finished
phase_after p (fails code message retryable) = failed
phase_after p (acknowledges reason) = cancelled

abbrev pub message_of : String → Report → WireMessage
message_of job (progresses n e) =
    WireMessage.progress (record { job_id = job; sequence = n; evidence = e })
message_of job (beats n) = WireMessage.heartbeat (record { job_id = job; sequence = n })
message_of job (finishes e) = WireMessage.finished (record { job_id = job; evidence = e })
message_of job (fails code message retryable) =
    WireMessage.failed
      (record { job_id = job; code = code; message = message; retryable = retryable })
message_of job (acknowledges reason) =
    WireMessage.cancelled (record { job_id = job; reason = reason })

-- The check of the evidence that a report carries.
abbrev pub checked : String → Report → Result ControllerError (Unit {0})
checked name (progresses n e) = validate_evidence_agent name e
checked name (finishes e) = validate_evidence_agent name e
checked name _ = ok tt

pub record Sent (job name : String) (m : Machine) (r : Report) (f : WireFrame) : Type 0 where
  pub text : f ≡ frame (message_of job r)
  pub allowed : may_send m.phase r ≡ true
  pub valid : checked name r ≡ ok tt
  pub next : (emit m r).0.phase ≡ phase_after m.phase r
  pub same_job : (emit m r).0.job_id ≡ some job
  pub same_name : (emit m r).0.bound_agent_name ≡ some name

pub emit-Sent :
    (job name : String) (m : Machine) (r : Report) {f : WireFrame}
    → m.job_id ≡ some job
    → m.bound_agent_name ≡ some name
    → (emit m r).1 ≡ ok f
    → Sent job name m r f
unfolding emit check_running
emit-Sent job name m (progresses n e) j b h = ground arith
emit-Sent job name m (beats n) j b h = ground arith
emit-Sent job name m (finishes e) j b h = ground arith
emit-Sent job name m (fails code message retryable) j b h = ground arith
emit-Sent job name m (acknowledges reason) j b h = ground arith

pub record SentReady (m : Machine) (r : ReadyFrame) (f : WireFrame) : Type 0 where
  pub from : m.phase ≡ preparing
  pub text : f ≡ frame (WireMessage.ready r)
  pub now : (mark_ready m r).0.phase ≡ ready
  pub same_job : (mark_ready m r).0.job_id ≡ m.job_id
  pub same_name : (mark_ready m r).0.bound_agent_name ≡ m.bound_agent_name

pub mark_ready-Sent :
    (m : Machine) (r : ReadyFrame) {f : WireFrame} → (mark_ready m r).1 ≡ ok f → SentReady m r f
unfolding mark_ready
mark_ready-Sent m r h = ground arith
