-- ===== src/Distributed/Controller/Moves/Relation.antt =====
-- The arms of `ControllerJobState::accept` (crates/distributed/src/state.rs) as a relation between
-- an agent's state and what a frame makes of it.
use mcp_loadtest.Distributed.Controller.Types.{AgentState, Signature, Error, Handled}
use mcp_loadtest.Distributed.Controller.Types.Phase.{
  awaiting_hello, preparing, ready, running, finished, failed, cancelling, cancelled,
}
use mcp_loadtest.Distributed.Controller.Types.{is_ended}
use mcp_loadtest.Distributed.Controller.Handlers.{refuse, accepted, is_newer}
use mcp_loadtest.Base.Order.{str_ord}
use mcp_loadtest.Base.{String, true, false, Option, none, some, ok, str_eq, ◌≡◌}
use mcp_loadtest.Distributed.Evidence.{AgentEvidence}
use mcp_loadtest.Distributed.Wire.{
  HelloFrame, ReadyFrame, ProgressFrame, FinishedFrame, FailedFrame, CancelledFrame, WireMessage,
  frame,
}

-- The evidence names the agent, in itself and in its shard.
abbrev pub Names : String → AgentEvidence → Type 0
Names name e = (e.agent_name ≡ name) × (e.shard.agent_name ≡ name)

-- The worker prepared all that its shard asks for, under this job and name, and saw a target.
pub record IsFullyReady (job agent : String) (a : AgentState) (r : ReadyFrame) : Type 0 where
  pub own_job : r.job_id ≡ job
  pub own_name : r.agent_name ≡ agent
  pub all_live : r.live_workers ≡ a.prepare.shard.concurrency
  pub requested : r.requested_workers ≡ a.prepare.shard.concurrency
  pub inventory_known : str_eq r.tool_inventory_hash "" ≡ false
  pub protocol_known : str_eq r.target_protocol_version "" ≡ false

abbrev pub signature_of : ReadyFrame → Signature
signature_of r = (r.target_protocol_version, r.tool_inventory_hash)

-- No other signature was there before.
abbrev pub Agrees : Option Signature → Signature → Type 0
Agrees none s = Unit
Agrees (some t) s = t ≡ s

-- The frames that may leave everything as it was: a heartbeat, and a checkpoint that comes late.
abbrev pub IsRoutine : WireMessage → Type 0
IsRoutine (WireMessage.heartbeat h) = Unit
IsRoutine (WireMessage.progress p) = Unit
IsRoutine _ = ⊥

pub data Move (job : String) (sig : Option Signature) (agent : String) (a : AgentState)
    (m : WireMessage) (h : Handled) : Type 0 where
  refused : (e : Error) → h ≡ refuse a sig e → Move job sig agent a m h
  lost :
      (e : Error)
      → a.phase ≡ preparing
      → h ≡ refuse (record a { phase = failed }) sig e
      → Move job sig agent a m h
  kept : IsRoutine m → h ≡ accepted a sig → Move job sig agent a m h
  greeted :
      (g : HelloFrame)
      → m ≡ WireMessage.hello g
      → a.phase ≡ awaiting_hello
      → h ≡ record {
        agent = record a { phase = preparing };
        signature = sig;
        reply = ok (some (frame (WireMessage.prepare a.prepare)));
      }
      → Move job sig agent a m h
  readied :
      (r : ReadyFrame)
      → m ≡ WireMessage.ready r
      → a.phase ≡ preparing
      → IsFullyReady job agent a r
      → Agrees sig (signature_of r)
      → h ≡ accepted (record a { phase = ready }) (some (signature_of r))
      → Move job sig agent a m h
  advanced :
      (p : ProgressFrame)
      → m ≡ WireMessage.progress p
      → a.phase ≡ running
      → Names agent p.evidence
      → is_newer p.sequence a.latest_progress ≡ true
      → h ≡ accepted (record a { latest_progress = some (p.sequence, p.evidence) }) sig
      → Move job sig agent a m h
  done :
      (f : FinishedFrame)
      → m ≡ WireMessage.finished f
      → a.phase ≡ running
      → Names agent f.evidence
      → h ≡ accepted (record a { phase = finished; final_evidence = some f.evidence }) sig
      → Move job sig agent a m h
  stopped :
      (c : CancelledFrame)
      → m ≡ WireMessage.cancelled c
      → a.phase ≡ cancelling
      → h ≡ accepted (record a { phase = cancelled }) sig
      → Move job sig agent a m h
  broke :
      (f : FailedFrame)
      → m ≡ WireMessage.failed f
      → is_ended a.phase ≡ false
      → f.job_id ≡ job
      → h ≡ accepted (record a { phase = failed; failure = some f }) sig
      → Move job sig agent a m h
