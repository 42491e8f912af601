-- ===== src/Distributed/Controller/Moves.antt =====
-- `ControllerJobState::accept` (crates/distributed/src/state.rs) makes no other move than those of
-- the relation.
mod Relation
pub use Relation.*
use mcp_loadtest.Distributed.Controller.Types.{Phase, AgentState, Signature, Error, Handled}
use mcp_loadtest.Distributed.Controller.Types.Phase.{
  awaiting_hello, preparing, ready, running, finished, failed, cancelling, cancelled,
}
use mcp_loadtest.Distributed.Controller.Types.{is_ended}
use mcp_loadtest.Distributed.Controller.Handlers.{
  dispatch, refuse, after, accepted, is_newer, is_short, on_hello, on_ready, on_progress,
  on_heartbeat, on_finished, on_cancelled, on_failed, on_signature, validate_job,
  validate_evidence_agent,
}
use mcp_loadtest.Base.Order.{str_ord}
use mcp_loadtest.Base.Map.{get}
use mcp_loadtest.Distributed.Controller.{accept, commit}
use mcp_loadtest.Distributed.Controller.Types.{JobState}
use mcp_loadtest.Base.{
  Option-cases, String, true, false, Option, none, some, Result, ok, err, str_eq, str_eq_iff, ◌≡◌,
  refl, ap, arith, Bool-cases, inl, inr,
}
use mcp_loadtest.Distributed.Evidence.{AgentEvidence}
use mcp_loadtest.Distributed.Wire.{
  wire_protocol, WireFrame, HelloFrame, ReadyFrame, ProgressFrame, HeartbeatFrame, FinishedFrame,
  FailedFrame, CancelledFrame, WireMessage, frame,
}

validate_job_sound : (job got : String) → validate_job job got ≡ ok tt → got ≡ job
unfolding validate_job
validate_job_sound job got h = ground (arith, str_eq_iff job got)

evidence_sound :
    (agent : String) (e : AgentEvidence) → validate_evidence_agent agent e ≡ ok tt → Names agent e
unfolding validate_evidence_agent
evidence_sound agent e h =
    ground (arith, str_eq_iff e.agent_name agent, str_eq_iff e.shard.agent_name agent)

ready_sound :
    (job agent : String) (a : AgentState) (r : ReadyFrame)
    → r.job_id ≡ job
    → str_eq r.agent_name agent ≡ true
    → is_short a r ≡ false
    → IsFullyReady job agent a r
unfolding is_short
ready_sound job agent a r own named full = ground (arith, str_eq_iff r.agent_name agent)

module _ (job : String) (sig : Option Signature) (agent : String) (a : AgentState) where
  abbrev Fits : WireMessage → Handled → Type 0
  Fits m h = Move job sig agent a m h

  after-Move :
      (m : WireMessage) (c : Result Error (Unit {0})) (next : Handled)
      → (c ≡ ok tt → Fits m next)
      → Fits m (after a sig c next)
  unfolding after
  after-Move m (ok _) next k = k refl
  after-Move m (err e) next k = refused e refl

  hello-Move :
      (h : HelloFrame)
      → a.phase ≡ awaiting_hello
      → Fits (WireMessage.hello h) (on_hello sig agent a h)
  unfolding on_hello
  hello-Move h p = after-Move _ _ _ λ _. greeted h refl p refl

  signature-Move :
      (s : Option Signature) (r : ReadyFrame)
      → s ≡ sig
      → a.phase ≡ preparing
      → IsFullyReady job agent a r
      → Fits (WireMessage.ready r) (on_signature s agent a r)
  unfolding on_signature
  signature-Move none r e p full = readied r refl p full (rw (← e) tt) refl
  signature-Move (some (protocol, inventory)) r e p full =
      elim (Bool-cases (str_eq r.target_protocol_version protocol)) [
        | inr other ↦ rw (other, e) (lost _ p refl)
        | inl same_protocol ↦ elim (Bool-cases (str_eq r.tool_inventory_hash inventory)) [
          | inr other ↦ rw (same_protocol, other, e) (lost _ p refl)
          | inl same_inventory ↦
              rw (same_protocol, same_inventory)
                (readied r refl p full
                  (rw (← e) (
                    ground (
                      arith,
                      str_eq_iff r.target_protocol_version protocol,
                      str_eq_iff r.tool_inventory_hash inventory,
                    )))
                  (ground (
                    arith,
                    str_eq_iff r.target_protocol_version protocol,
                    str_eq_iff r.tool_inventory_hash inventory,
                  )))
        ]
      ]

  ready-Move :
      (r : ReadyFrame)
      → a.phase ≡ preparing
      → Fits (WireMessage.ready r) (on_ready job sig agent a r)
  unfolding on_ready
  ready-Move r p = after-Move _ _ _ λ own. elim (Bool-cases (str_eq r.agent_name agent)) [
    | inr other ↦ rw other (refused _ refl)
    | inl named ↦ elim (Bool-cases (is_short a r)) [
      | inl short ↦ rw (named, short) (lost _ p refl)
      | inr full ↦
          rw (named, full)
            (signature-Move sig r refl p
              (ready_sound job agent a r (validate_job_sound job r.job_id own) named full))
    ]
  ]

  progress-Move :
      (p : ProgressFrame)
      → a.phase ≡ running
      → Fits (WireMessage.progress p) (on_progress job sig agent a p)
  unfolding on_progress
  progress-Move p e = after-Move _ _ _ λ _. after-Move _ _ _ λ names.
      elim (Bool-cases (is_newer p.sequence a.latest_progress)) [
        | inl newer ↦
            rw newer (advanced p refl e (evidence_sound agent p.evidence names) newer refl)
        | inr older ↦ rw older (kept tt refl)
      ]

  heartbeat-Move : (h : HeartbeatFrame) → Fits (WireMessage.heartbeat h) (on_heartbeat job sig a h)
  unfolding on_heartbeat
  heartbeat-Move h = after-Move _ _ _ λ _. kept tt refl

  finished-Move :
      (f : FinishedFrame)
      → a.phase ≡ running
      → Fits (WireMessage.finished f) (on_finished job sig agent a f)
  unfolding on_finished
  finished-Move f e =
      after-Move _ _ _
        λ _. after-Move _ _ _ λ names. done f refl e (evidence_sound agent f.evidence names) refl

  cancelled-Move :
      (c : CancelledFrame)
      → a.phase ≡ cancelling
      → Fits (WireMessage.cancelled c) (on_cancelled job sig a c)
  unfolding on_cancelled
  cancelled-Move c e = after-Move _ _ _ λ _. stopped c refl e refl

  failed-Move :
      (f : FailedFrame)
      → is_ended a.phase ≡ false
      → Fits (WireMessage.failed f) (on_failed job sig a f)
  unfolding on_failed
  failed-Move f e =
      after-Move _ _ _ λ own. broke f refl e (validate_job_sound job f.job_id own) refl

  dispatch-Move :
      (p : Phase) (m : WireMessage) → a.phase ≡ p → Fits m (dispatch p m job sig agent a)
  unfolding dispatch
  dispatch-Move awaiting_hello (WireMessage.hello h) e = hello-Move h e
  dispatch-Move preparing (WireMessage.ready r) e = ready-Move r e
  dispatch-Move running (WireMessage.progress p) e = progress-Move p e
  dispatch-Move preparing (WireMessage.heartbeat h) e = heartbeat-Move h
  dispatch-Move ready (WireMessage.heartbeat h) e = heartbeat-Move h
  dispatch-Move running (WireMessage.heartbeat h) e = heartbeat-Move h
  dispatch-Move running (WireMessage.finished f) e = finished-Move f e
  dispatch-Move cancelling (WireMessage.cancelled c) e = cancelled-Move c e
  dispatch-Move awaiting_hello (WireMessage.failed f) e = failed-Move f (ap is_ended e)
  dispatch-Move preparing (WireMessage.failed f) e = failed-Move f (ap is_ended e)
  dispatch-Move ready (WireMessage.failed f) e = failed-Move f (ap is_ended e)
  dispatch-Move running (WireMessage.failed f) e = failed-Move f (ap is_ended e)
  dispatch-Move cancelling (WireMessage.failed f) e = failed-Move f (ap is_ended e)
  dispatch-Move _ _ e = refused _ refl

-- A frame is refused with the job as it was, or makes one move of a known agent.
pub accept_cases {ℓ} :
    (Q : JobState × Result Error (Option WireFrame) → Type ℓ) (s : JobState) (agent : String)
    (f : WireFrame)
    → ((e : Error) → Q (s, err e))
    → ((a : AgentState) (h : Handled)
        → get agent s.agents ≡ some a
        → Move s.job_id s.ready_signature agent a f.message h
        → Q (commit s agent h))
    → Q (accept s agent f)
unfolding accept
accept_cases Q s agent f stays moves = elim (Bool-cases (str_eq f.protocol wire_protocol)) [
  | inr other ↦ rw other (stays _)
  | inl same ↦ elim (Option-cases (get agent s.agents)) [
    | inl absent ↦ rw (same, absent) (stays _)
    | inr (a, present) ↦
        rw (same, present)
          (moves a _ present
            (dispatch-Move s.job_id s.ready_signature agent a a.phase f.message refl))
  ]
]

-- A frame of the right protocol from a known agent is dispatched on the agent's phase.
pub accept_known :
    (s : JobState) (agent : String) (a : AgentState) (f : WireFrame)
    → f.protocol ≡ wire_protocol
    → get agent s.agents ≡ some a
    → accept s agent f
      ≡ commit s agent (dispatch a.phase f.message s.job_id s.ready_signature agent a)
unfolding accept
accept_known s agent a f protocol found =
    rw ((str_eq_iff f.protocol wire_protocol).1 protocol, found)
