-- ===== src/Distributed/Worker/Orders.antt =====
-- What `AgentStateMachine::accept` (crates/distributed/src/state.rs) does with an order in time.
use mcp_loadtest.Base.{
  String, Bool, true, false, Option, none, some, ok, ◌≡◌, refl, arith, str_eq_iff,
}
use mcp_loadtest.Distributed.Wire.{
  HelloFrame, PrepareFrame, StartFrame, CancelFrame, WireMessage, frame, wire_protocol,
}
use mcp_loadtest.Distributed.Worker.Types.{Machine, Directive, Phase}
use mcp_loadtest.Distributed.Worker.{new, accept, dispatch, on_prepare, on_start, on_cancel, bound}

-- The name that a worker was pinned to, if it was, is this one.
abbrev pub FitsName : Option String → String → Type 0
FitsName none name = Unit
FitsName (some own) name = own ≡ name

accept-prepare :
    (own : Option String) (g : HelloFrame) (p : PrepareFrame)
    → g.agent_name ≡ own
    → FitsName own p.shard.agent_name
    → accept (new g) (frame (WireMessage.prepare p)) ≡ (bound (new g) p, ok (Directive.prepare p))
unfolding accept new on_prepare
accept-prepare none g p e fits = ground (arith, str_eq_iff wire_protocol wire_protocol)
accept-prepare (some own) g p e fits =
    ground (arith, fits, str_eq_iff wire_protocol wire_protocol, str_eq_iff own p.shard.agent_name)

pub new-prepare :
    (g : HelloFrame) (p : PrepareFrame)
    → FitsName g.agent_name p.shard.agent_name
    → accept (new g) (frame (WireMessage.prepare p)) ≡ (bound (new g) p, ok (Directive.prepare p))
new-prepare g p fits = accept-prepare g.agent_name g p refl fits

pub accept-start :
    (m : Machine) (s : StartFrame)
    → m.phase ≡ Phase.ready
    → m.job_id ≡ some s.job_id
    → accept m (frame (WireMessage.start s))
      ≡ (record m { phase = Phase.running }, ok (Directive.start s))
unfolding accept on_start
accept-start m s ready job =
    ground (arith, str_eq_iff wire_protocol wire_protocol, str_eq_iff s.job_id s.job_id)

abbrev pub can_cancel : Phase → Bool
can_cancel Phase.preparing = true
can_cancel Phase.ready = true
can_cancel Phase.running = true
can_cancel Phase.cancelling = true
can_cancel _ = false

pub accept-cancel :
    (m : Machine) (c : CancelFrame)
    → can_cancel m.phase ≡ true
    → m.job_id ≡ some c.job_id
    → accept m (frame (WireMessage.cancel c))
      ≡ (record m { phase = Phase.cancelling }, ok (Directive.cancel c))
unfolding accept dispatch on_cancel
accept-cancel m c live job =
    ground (arith, str_eq_iff wire_protocol wire_protocol, str_eq_iff c.job_id c.job_id)
