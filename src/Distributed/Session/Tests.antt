-- ===== src/Distributed/Session/Tests.antt =====
-- One worker of a job of two, through a whole run beside the controller.
use mcp_loadtest.Base.{String, List, [], ◌∷◌, none, some, ok, ◌≡◌, refl, str_eq}
use mcp_loadtest.Base.Order.{str_ord}
use mcp_loadtest.Base.Map.{get, insert, update}
use mcp_loadtest.Distributed.Samples.{
  cohort, prepare, readiness, report, greeting, hello_frame, ready_frame,
}
use mcp_loadtest.Distributed.Wire.{WireMessage, WireFrame, frame}
use mcp_loadtest.Distributed.Controller.Types.{JobState, AgentState, Phase}
use mcp_loadtest.Distributed.Controller.{new, enlisted, accept, start_all, cancel_all}
use mcp_loadtest.Distributed.Controller.Run.{receive, step, run}
use mcp_loadtest.Distributed.Controller.Invariant.{Inv, new-Inv, run-Inv}
use mcp_loadtest.Distributed.Controller.Moves.{IsFullyReady}
use mcp_loadtest.Distributed.Worker.Types.{Machine, Directive, Phase as WorkerPhase}
use mcp_loadtest.Distributed.Worker.{new as fresh_worker, hello, bound, mark_ready}
use mcp_loadtest.Distributed.Worker.Reports.{finishes, emit}
use mcp_loadtest.Distributed.Session.{Synced}
use mcp_loadtest.Distributed.Session.Reports.{Delivered, accept-emit, accept-mark_ready}
use mcp_loadtest.Distributed.Session.Orders.{
  Followed, Ordered, Cancels, follow-prepare, follow-start, follow-cancel,
}

abbrev job : JobState
job = record {
  job_id = "job-1";
  agents = ("east", enlisted (prepare "east" 0)) ∷ ("west", enlisted (prepare "west" 1)) ∷ [];
  ready_signature = none;
}

enlists : new cohort ≡ ok job
unfolding new get insert str_eq
enlists = refl

abbrev prepared : WireFrame
prepared = frame (WireMessage.prepare (prepare "east" 0))

follow-prepare_example :
    (a : AgentState) × (get "east" job.agents ≡ some a)
    × Followed
        (accept job "east" (hello (fresh_worker greeting))).0
        "east"
        (fresh_worker greeting)
        prepared
        (Directive.prepare a.prepare)
        WorkerPhase.preparing
unfolding accept get str_eq hello fresh_worker
follow-prepare_example = follow-prepare job "east" greeting prepared (new-Inv cohort enlists) refl

-- Both workers have greeted, and the first is preparing.
abbrev greeted : JobState
greeted = run job (receive "east" hello_frame ∷ receive "west" hello_frame ∷ [])

abbrev at_phase : WorkerPhase → Machine
at_phase p = record (bound (fresh_worker greeting) (prepare "east" 0)) { phase = p }

abbrev east : Phase → AgentState
east p = record (enlisted (prepare "east" 0)) { phase = p }

both_preparing : Synced greeted "east" (at_phase WorkerPhase.preparing)
unfolding run step accept get update str_eq fresh_worker
both_preparing = record {
  entry = east Phase.preparing;
  found = refl;
  same_job = refl;
  same_name = refl;
  same_phase = refl;
}

east_full : IsFullyReady "job-1" "east" (east Phase.preparing) (readiness "east")
unfolding str_eq
east_full = record {
  own_job = refl;
  own_name = refl;
  all_live = refl;
  requested = refl;
  inventory_known = refl;
  protocol_known = refl;
}

accept-mark_ready_example :
    Delivered greeted "east"
      (mark_ready (at_phase WorkerPhase.preparing) (readiness "east")).0
      (ready_frame "east")
unfolding both_preparing mark_ready run step accept get update str_eq fresh_worker
accept-mark_ready_example =
    accept-mark_ready greeted "east" (at_phase WorkerPhase.preparing) (readiness "east")
      (ready_frame "east") both_preparing refl east_full tt

abbrev both_ready : JobState
both_ready =
    run greeted (receive "east" (ready_frame "east") ∷ receive "west" (ready_frame "west") ∷ [])

east_ready : Synced both_ready "east" (at_phase WorkerPhase.ready)
unfolding run step accept get update str_eq fresh_worker
east_ready = record {
  entry = east Phase.ready;
  found = refl;
  same_job = refl;
  same_name = refl;
  same_phase = refl;
}

follow-start_example :
    (t : JobState) × (frames : List (String × WireFrame)) × (start_all both_ready 500
      ≡ (t, ok frames))
    × Ordered t frames "east"
        (at_phase WorkerPhase.ready)
        (Directive.start (record { job_id = "job-1"; start_after_ms = 500 }))
        WorkerPhase.running
unfolding run step accept get update str_eq
follow-start_example =
    follow-start both_ready 500 "east" (at_phase WorkerPhase.ready) (refl, (refl, tt)) east_ready

both_ready-Inv : Inv both_ready
both_ready-Inv =
    run-Inv greeted (receive "east" (ready_frame "east") ∷ receive "west" (ready_frame "west") ∷ [])
      (run-Inv job (receive "east" hello_frame ∷ receive "west" hello_frame ∷ [])
        (new-Inv cohort enlists))

follow-cancel_example :
    Cancels (cancel_all both_ready "stop") "east" "job-1" "stop" (at_phase WorkerPhase.ready)
unfolding run step accept get update str_eq
follow-cancel_example =
    follow-cancel both_ready "stop" "east" (at_phase WorkerPhase.ready) both_ready-Inv east_ready

abbrev started : JobState
started = (start_all both_ready 500).0

east_runs : Synced started "east" (at_phase WorkerPhase.running)
unfolding start_all run step accept get update str_eq fresh_worker
east_runs = record {
  entry = east Phase.running;
  found = refl;
  same_job = refl;
  same_name = refl;
  same_phase = refl;
}

abbrev finished_frame : WireFrame
finished_frame =
    frame (WireMessage.finished (record { job_id = "job-1"; evidence = report "east" 0 }))

accept-emit_example :
    Delivered started "east"
      (emit (at_phase WorkerPhase.running) (finishes (report "east" 0))).0
      finished_frame
unfolding east_runs emit str_eq fresh_worker
accept-emit_example =
    accept-emit started "east" (at_phase WorkerPhase.running) (finishes (report "east" 0))
      finished_frame east_runs refl refl
