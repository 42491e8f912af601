-- ===== src/Distributed/Worker/Tests.antt =====
-- Runs of one worker, and the theorems of the worker at them.
use mcp_loadtest.Base.{List, [], ◌∷◌, some, ◌≡◌, refl, str_eq}
use mcp_loadtest.Distributed.Samples.{greeting, prepare, readiness, report}
use mcp_loadtest.Distributed.Wire.{WireMessage, frame}
use mcp_loadtest.Distributed.Worker.Types.{Machine, Phase, wrong_phase}
use mcp_loadtest.Distributed.Worker.Types.Phase.{running, finished}
use mcp_loadtest.Distributed.Worker.{new}
use mcp_loadtest.Distributed.Worker.Run.{Call, accepts, marks_ready, finishes, step, run}
use mcp_loadtest.Distributed.Worker.Invariant.{Inv, calls-new-Inv, Keeps, step-Keeps}

abbrev one_run : List Call
one_run =
    accepts (frame (WireMessage.prepare (prepare "east" 0)))
    ∷ marks_ready (readiness "east")
    ∷ accepts (frame (WireMessage.start (record { job_id = "job-1"; start_after_ms = 500 })))
    ∷ finishes (report "east" 0)
    ∷ []

one_run_finishes : (run (new greeting) one_run).phase ≡ finished
unfolding run step new str_eq
one_run_finishes = refl

finishes_too_early :
    (step (new greeting) (finishes (report "east" 0))).1
    ≡ some (wrong_phase running Phase.awaiting_prepare)
unfolding step new
finishes_too_early = refl

calls-new-Inv_example : Inv (run (new greeting) one_run)
calls-new-Inv_example = calls-new-Inv greeting one_run

abbrev done : Machine
done = run (new greeting) one_run

step-Keeps_example :
    Keeps done (step done (finishes (report "east" 0))).0 (step done (finishes (report "east" 0))).1
step-Keeps_example = step-Keeps done (finishes (report "east" 0)) (calls-new-Inv greeting one_run)
