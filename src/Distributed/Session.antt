-- ===== src/Distributed/Session.antt =====
-- A worker and the controller's entry for it, side by side (crates/distributed/src/state.rs): what each
-- sends, handed to the other at once.
pub mod Reports
pub mod Orders
mod Tests
use mcp_loadtest.Base.{
  ℕ, String, Bool, true, false, Option, none, some, Result, ok, err, ◌≡◌, refl, ap, ◌∙◌, sym, arith,
}
use mcp_loadtest.Base.Order.{str_ord, same, same_iff}
use mcp_loadtest.Base.Map.{get}
use mcp_loadtest.Distributed.Wire.{WireFrame, wire_protocol}
use mcp_loadtest.Distributed.Controller.Types.{AgentState, JobState, Signature, Phase}
use mcp_loadtest.Distributed.Controller.Handlers.{dispatch, accepted}
use mcp_loadtest.Distributed.Controller.{accept}
use mcp_loadtest.Distributed.Controller.Moves.{accept_known}
use mcp_loadtest.Distributed.Controller.Later.{get-written}
use mcp_loadtest.Distributed.Worker.Types.{Machine, Phase as WorkerPhase}

-- The controller's phase for a worker's phase; before the preparation they have no common one.
abbrev pub counterpart : WorkerPhase → Option Phase
counterpart WorkerPhase.awaiting_prepare = none
counterpart WorkerPhase.preparing = some Phase.preparing
counterpart WorkerPhase.ready = some Phase.ready
counterpart WorkerPhase.running = some Phase.running
counterpart WorkerPhase.finished = some Phase.finished
counterpart WorkerPhase.failed = some Phase.failed
counterpart WorkerPhase.cancelling = some Phase.cancelling
counterpart WorkerPhase.cancelled = some Phase.cancelled

-- The worker works on this job under this name, and both are in the same phase.
pub record Synced (s : JobState) (name : String) (m : Machine) : Type 0 where
  pub entry : AgentState
  pub found : get name s.agents ≡ some entry
  pub same_job : m.job_id ≡ some s.job_id
  pub same_name : m.bound_agent_name ≡ some name
  pub same_phase : counterpart m.phase ≡ some entry.phase

-- The frame is taken without a reply, and leaves this entry.
pub record Taken (s : JobState) (name : String) (f : WireFrame) (b : AgentState) : Type 0 where
  pub reply : (accept s name f).1 ≡ ok none
  pub now : get name (accept s name f).0.agents ≡ some b
  pub job : (accept s name f).0.job_id ≡ s.job_id

pub take :
    (s : JobState) (name : String) (f : WireFrame) (a b : AgentState) (sig : Option Signature)
    → get name s.agents ≡ some a
    → f.protocol ≡ wire_protocol
    → dispatch a.phase f.message s.job_id s.ready_signature name a ≡ accepted b sig
    → Taken s name f b
take s name f a b sig found protocol handled =
    let known = accept_known s name a f protocol found in
    record {
      reply = ground (arith, known, handled);
      now =
          ground
            (arith, known, handled, get-written name name s.agents b found, same_iff name name);
      job = ground (arith, known);
    }
