-- ===== src/Distributed/Controller/Run.antt =====
-- Histories of a job: frames that arrive, the start gate and cancellations, in any order
-- (crates/distributed/src/state.rs; the calls come from crates/mcp-loadtest-cli/src/distributed).
use mcp_loadtest.Base.{ℕ, String, List, [], ◌∷◌}
use mcp_loadtest.Distributed.Wire.{WireFrame}
use mcp_loadtest.Distributed.Controller.Types.{JobState}
use mcp_loadtest.Distributed.Controller.{accept, start_all, cancel_all}

pub data Command : Type 0 where
  receive : (agent : String) (frame : WireFrame) → Command
  start : (lead : ℕ) → Command
  cancel : (reason : String) → Command

unfoldable pub step : JobState → Command → JobState
unfolding accept start_all cancel_all
step s (receive agent f) = (accept s agent f).0
step s (start lead) = (start_all s lead).0
step s (cancel reason) = (cancel_all s reason).0

unfoldable pub run : JobState → List Command → JobState
run s [] = s
run s (c ∷ cs) = run (step s c) cs
