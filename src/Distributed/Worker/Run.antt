-- ===== src/Distributed/Worker/Run.antt =====
-- The calls of `AgentStateMachine` that write it (crates/distributed/src/state.rs), in any order.
use mcp_loadtest.Base.{String, Bool, List, [], ◌∷◌, Option, none, some, Result, ok, err}
use mcp_loadtest.Distributed.Evidence.{AgentEvidence}
use mcp_loadtest.Distributed.Wire.{WireFrame, ReadyFrame}
use mcp_loadtest.Distributed.Worker.Types.{Machine, Error}
use mcp_loadtest.Distributed.Worker.{accept, mark_ready, finish, fail, cancelled_ack}

pub data Call : Type 0 where
  accepts : (frame : WireFrame) → Call
  marks_ready : (ready : ReadyFrame) → Call
  finishes : (evidence : AgentEvidence) → Call
  fails : (code message : String) (retryable : Bool) → Call
  acknowledges : (reason : String) → Call

abbrev pub failure {ℓ} : {A : Type ℓ} → Result Error A → Option Error
failure (ok a) = none
failure (err e) = some e

-- The machine after a call, and the error if there was one.
unfoldable pub step : Machine → Call → Machine × Option Error
unfolding accept mark_ready finish fail cancelled_ack
step m (accepts f) = let (n, r) = accept m f in (n, failure r)
step m (marks_ready r) = let (n, r') = mark_ready m r in (n, failure r')
step m (finishes e) = let (n, r) = finish m e in (n, failure r)
step m (fails c t b) = let (n, r) = fail m c t b in (n, failure r)
step m (acknowledges why) = let (n, r) = cancelled_ack m why in (n, failure r)

unfoldable pub run : Machine → List Call → Machine
run m [] = m
run m (c ∷ cs) = run (step m c).0 cs
