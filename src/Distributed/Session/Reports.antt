-- ===== src/Distributed/Session/Reports.antt =====
-- What a worker reports is taken by the controller (crates/distributed/src/state.rs).
use mcp_loadtest.Base.{
  String, true, false, Option, none, some, ok, ◌≡◌, ap, ◌∙◌, sym, arith, str_eq_iff, if◌then◌else◌,
}
use mcp_loadtest.Distributed.Wire.{WireFrame, WireMessage, ReadyFrame}
use mcp_loadtest.Base.Order.{str_ord}
use mcp_loadtest.Distributed.Controller.Types.{AgentState, JobState, Phase, Signature, is_ended}
use mcp_loadtest.Distributed.Controller.Handlers.{
  dispatch, accepted, on_ready, on_progress, on_heartbeat, on_finished, on_failed, on_cancelled,
  after, is_newer, is_short, on_signature, validate_job,
}
use mcp_loadtest.Distributed.Controller.{accept}
use mcp_loadtest.Distributed.Controller.Moves.{IsFullyReady, Agrees, signature_of}
use mcp_loadtest.Distributed.Worker.Types.{Machine, Phase as WorkerPhase}
use mcp_loadtest.Distributed.Worker.Reports.{
  Report, progresses, beats, finishes, fails, acknowledges, emit, emit-Sent, mark_ready-Sent,
  may_send, phase_after, message_of, checked,
}
use mcp_loadtest.Distributed.Worker.{mark_ready}
use mcp_loadtest.Distributed.Session.{Synced, Taken, take, counterpart}

-- The frame is taken without a reply, and both sides are in step again.
pub record Delivered (s : JobState) (name : String) (n : Machine) (f : WireFrame) : Type 0 where
  pub reply : (accept s name f).1 ≡ ok none
  pub synced : Synced (accept s name f).0 name n

pub deliver :
    (s : JobState) (name : String) (n : Machine) (f : WireFrame) (b : AgentState)
    → Taken s name f b
    → n.job_id ≡ some s.job_id
    → n.bound_agent_name ≡ some name
    → counterpart n.phase ≡ some b.phase
    → Delivered s name n f
deliver s name n f b taken job own phase = record {
  reply = taken.reply;
  synced = record {
    entry = b;
    found = taken.now;
    same_job = job ∙ ap some (sym taken.job);
    same_name = own;
    same_phase = phase;
  };
}

-- The entry that a report leaves.
abbrev written : String → AgentState → Report → AgentState
written job a (progresses n e) =
    if is_newer n a.latest_progress then record a { latest_progress = some (n, e) } else a
written job a (beats n) = a
written job a (finishes e) = record a { phase = Phase.finished; final_evidence = some e }
written job a (fails code message retryable) = record a {
  phase = Phase.failed;
  failure = some (record { job_id = job; code = code; message = message; retryable = retryable });
}
written job a (acknowledges reason) = record a { phase = Phase.cancelled }

report_handled :
    (job name : String) (sig : Option Signature) (a : AgentState) (p : WorkerPhase) (r : Report)
    → may_send p r ≡ true
    → is_ended a.phase ≡ false
    → counterpart p ≡ some a.phase
    → checked name r ≡ ok tt
    → (b : AgentState) × (dispatch a.phase (message_of job r) job sig name a ≡ accepted b sig)
      × (counterpart (phase_after p r) ≡ some b.phase)
unfolding dispatch on_progress on_heartbeat on_finished on_failed on_cancelled after validate_job
report_handled job name sig a p (progresses n e) sends live same valid =
    (written job a (progresses n e), ground (arith, str_eq_iff job job), ground arith)
report_handled job name sig a p (beats n) sends live same valid =
    (a, ground (arith, str_eq_iff job job), ground arith)
report_handled job name sig a p (finishes e) sends live same valid =
    (written job a (finishes e), ground (arith, str_eq_iff job job), ground arith)
report_handled job name sig a p (fails code message retryable) sends live same valid =
    (written job a (fails code message retryable), ground (arith, str_eq_iff job job), ground arith)
report_handled job name sig a p (acknowledges reason) sends live same valid =
    (written job a (acknowledges reason), ground (arith, str_eq_iff job job), ground arith)

-- A worker in step with the controller, which has not ended, sends a report: whatever frame it sends is
-- taken, and both are in step afterwards.
pub accept-emit :
    (s : JobState) (name : String) (m : Machine) (r : Report) (f : WireFrame) (y : Synced s name m)
    → is_ended y.entry.phase ≡ false
    → (emit m r).1 ≡ ok f
    → Delivered s name (emit m r).0 f
accept-emit s name m r f y live h =
    let sent = emit-Sent s.job_id name m r y.same_job y.same_name h in
    let (b, handled, phase) =
      report_handled s.job_id name s.ready_signature y.entry m.phase r sent.allowed live
        y.same_phase sent.valid in
    deliver s name (emit m r).0 f b
      (take s name f y.entry b s.ready_signature y.found
        (ap (λ (g : WireFrame). g.protocol) sent.text) (rw sent.text handled))
      sent.same_job sent.same_name (ap counterpart sent.next ∙ phase)

ready_handled :
    (job name : String) (sig : Option Signature) (a : AgentState) (r : ReadyFrame)
    → a.phase ≡ Phase.preparing
    → IsFullyReady job name a r
    → Agrees sig (signature_of r)
    → dispatch a.phase (WireMessage.ready r) job sig name a
      ≡ accepted (record a { phase = Phase.ready }) (some (signature_of r))
unfolding dispatch on_ready after validate_job is_short on_signature
ready_handled job name none a r p full agrees =
    ground
      (arith, full, str_eq_iff r.job_id job, str_eq_iff job r.job_id, str_eq_iff r.agent_name name)
ready_handled job name (some (protocol, inventory)) a r p full agrees = ground (
  arith,
  full,
  agrees,
  str_eq_iff job r.job_id,
  str_eq_iff r.agent_name name,
  str_eq_iff r.target_protocol_version protocol,
  str_eq_iff r.tool_inventory_hash inventory,
)

-- A worker in step with the controller reports ready: if it sends the frame, prepared all that its
-- shard asks for, and saw the target that the workers before it saw, the frame is taken and both are
-- ready.
pub accept-mark_ready :
    (s : JobState) (name : String) (m : Machine) (r : ReadyFrame) (f : WireFrame)
    (y : Synced s name m)
    → (mark_ready m r).1 ≡ ok f
    → IsFullyReady s.job_id name y.entry r
    → Agrees s.ready_signature (signature_of r)
    → Delivered s name (mark_ready m r).0 f
accept-mark_ready s name m r f y h full agrees =
    let sent = mark_ready-Sent m r h in
    let preparing : y.entry.phase ≡ Phase.preparing = ground (arith, sent.from, y.same_phase) in
    deliver s name (mark_ready m r).0 f (record y.entry { phase = Phase.ready })
      (take s name f y.entry (record y.entry { phase = Phase.ready }) (some (signature_of r))
        y.found (ap (λ (g : WireFrame). g.protocol) sent.text)
        (rw sent.text
          (ready_handled s.job_id name s.ready_signature y.entry r preparing full agrees)))
      (sent.same_job ∙ y.same_job) (sent.same_name ∙ y.same_name) (ap counterpart sent.now)
