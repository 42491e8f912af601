-- ===== src/Distributed/Worker.antt =====
-- crates/distributed/src/state.rs: `AgentStateMachine`, the worker's side of the protocol. A method
-- that takes `&mut self` returns the new machine beside its result.
pub mod Types
pub mod Run
pub mod Reports
pub mod Orders
pub mod Invariant
mod Tests
use Types.{
  Phase, Machine, Directive, Error, unsupported_protocol, job_mismatch, agent_mismatch,
  job_not_prepared, wrong_phase, unexpected_frame, evidence, phase_eq,
}
use Types.Phase.{
  awaiting_prepare, preparing, ready, running, finished, failed, cancelling, cancelled,
}
use mcp_loadtest.Base.{
  ℕ, String, Bool, true, false, not, List, Option, none, some, Result, ok, err, ◌>>=◌, ◌>>◌, reject,
  ok_or, if◌then◌else◌, str_eq,
}
use mcp_loadtest.Distributed.Evidence.{AgentEvidence}
use mcp_loadtest.Distributed.Controller.Types.{Error as ControllerError}
use mcp_loadtest.Distributed.Controller.Handlers.{validate_evidence_agent}
use mcp_loadtest.Distributed.Controller.Display.{display}
use mcp_loadtest.Distributed.Wire.{
  HelloFrame, PrepareFrame, ReadyFrame, StartFrame, CancelFrame, WireMessage, WireFrame,
  wire_protocol, frame, message_name,
}

unfoldable pub new : HelloFrame → Machine
new greeting = record {
  hello = greeting;
  phase = awaiting_prepare;
  job_id = none;
  bound_agent_name = none;
}

unfoldable pub hello : Machine → WireFrame
hello m = frame (WireMessage.hello m.hello)

abbrev require_phase : Machine → Phase → Result Error (Unit {0})
require_phase m expected = reject (not (phase_eq m.phase expected)) (wrong_phase expected m.phase)

abbrev required_job : Machine → Result Error String
required_job m = ok_or m.job_id job_not_prepared

abbrev required_agent_name : Machine → Result Error String
required_agent_name m = ok_or m.bound_agent_name job_not_prepared

abbrev validate_job : Machine → String → Result Error (Unit {0})
validate_job m got = do
  expected ← required_job m
  reject (not (str_eq got expected)) (job_mismatch expected got)

-- `return Err(e)` before anything is written, and a successful end.
abbrev settle {ℓ} : {A : Type ℓ} → Machine → Machine → Result Error A → Machine × Result Error A
settle m next (ok a) = (next, ok a)
settle m next (err e) = (m, err e)

abbrev check_name : Option String → String → Result Error (Unit {0})
check_name none name = ok tt
check_name (some own) name = reject (not (str_eq own name)) (agent_mismatch own name)

abbrev pub bound : Machine → PrepareFrame → Machine
bound m p = record m {
  phase = preparing;
  job_id = some p.job_id;
  bound_agent_name = some p.shard.agent_name;
}

on_prepare : Machine → PrepareFrame → Machine × Result Error Directive
on_prepare m p =
    settle m (bound m p)
      (do check_name m.hello.agent_name p.shard.agent_name; ok (Directive.prepare p))

on_start : Machine → StartFrame → Machine × Result Error Directive
on_start m s =
    settle m (record m { phase = running }) (do validate_job m s.job_id; ok (Directive.start s))

on_cancel : Machine → CancelFrame → Machine × Result Error Directive
on_cancel m c =
    settle m (record m { phase = cancelling }) (do validate_job m c.job_id; ok (Directive.cancel c))

-- The `match` of `accept`; the last clause is its last arm.
dispatch : Phase → WireMessage → Machine → Machine × Result Error Directive
unfolding on_prepare on_start on_cancel
dispatch awaiting_prepare (WireMessage.prepare p) m = on_prepare m p
dispatch ready (WireMessage.start s) m = on_start m s
dispatch preparing (WireMessage.cancel c) m = on_cancel m c
dispatch ready (WireMessage.cancel c) m = on_cancel m c
dispatch running (WireMessage.cancel c) m = on_cancel m c
dispatch cancelling (WireMessage.cancel c) m = on_cancel m c
dispatch p message m = (m, err (unexpected_frame p (message_name message)))

pub accept : Machine → WireFrame → Machine × Result Error Directive
unfolding dispatch
accept m f =
    if not (str_eq f.protocol wire_protocol)
    then (m, err (unsupported_protocol f.protocol))
    else dispatch m.phase f.message m

unfoldable pub mark_ready : Machine → ReadyFrame → Machine × Result Error WireFrame
mark_ready m r =
    settle m (record m { phase = ready })
      (do
        require_phase m preparing
        validate_job m r.job_id
        expected ← required_agent_name m
        reject (not (str_eq r.agent_name expected)) (agent_mismatch expected r.agent_name)
        ok (frame (WireMessage.ready r)))

-- `map_err(|error| Evidence(error.to_string()))`
abbrev own_evidence : Result ControllerError (Unit {0}) → Result Error (Unit {0})
own_evidence (ok _) = ok tt
own_evidence (err e) = err (evidence (display e))

check_running : Machine → AgentEvidence → Result Error (Unit {0})
unfolding validate_evidence_agent display
check_running m e = do
  require_phase m running
  name ← required_agent_name m
  own_evidence (validate_evidence_agent name e)

pub progress : Machine → ℕ → AgentEvidence → Result Error WireFrame
unfolding check_running
progress m sequence e = do
  check_running m e
  job ← required_job m
  ok (frame (WireMessage.progress (record { job_id = job; sequence = sequence; evidence = e })))

abbrev is_live : Phase → Bool
is_live preparing = true
is_live ready = true
is_live running = true
is_live _ = false

pub heartbeat : Machine → ℕ → Result Error WireFrame
heartbeat m sequence = do
  reject (not (is_live m.phase)) (wrong_phase running m.phase)
  job ← required_job m
  ok (frame (WireMessage.heartbeat (record { job_id = job; sequence = sequence })))

-- The phase is written before the job id is read, so a failure there would leave it written.
abbrev finish_with :
    Machine → AgentEvidence → Result Error (Unit {0}) → Machine × Result Error WireFrame
finish_with m e (err x) = (m, err x)
finish_with m e (ok _) = (
  record m { phase = finished },
  do
    job ← required_job m
    ok (frame (WireMessage.finished (record { job_id = job; evidence = e }))),
)

pub finish : Machine → AgentEvidence → Machine × Result Error WireFrame
unfolding check_running
finish m e = finish_with m e (check_running m e)

pub fail : Machine → String → String → Bool → Machine × Result Error WireFrame
fail m code message retryable =
    settle m (record m { phase = failed })
      (do
        job ← required_job m
        ok (
            frame (
              WireMessage.failed
                (record { job_id = job; code = code; message = message; retryable = retryable }))))

pub cancelled_ack : Machine → String → Machine × Result Error WireFrame
cancelled_ack m reason =
    settle m (record m { phase = cancelled })
      (do
        require_phase m cancelling
        job ← required_job m
        ok (frame (WireMessage.cancelled (record { job_id = job; reason = reason }))))
