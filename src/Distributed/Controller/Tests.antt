-- ===== src/Distributed/Controller/Tests.antt =====
-- Runs of a job of two workers, and the theorems of the controller at them.
use mcp_loadtest.Base.{true, List, [], ◌∷◌, none, some, ok, err, ◌≡◌, refl, str_eq}
use mcp_loadtest.Base.Order.{str_ord}
use mcp_loadtest.Base.Map.{get, insert, update, keys}
use mcp_loadtest.Distributed.Samples.{
  cohort, prepare, readiness, report, hello_frame, ready_frame, finished_frame,
}
use mcp_loadtest.Distributed.Wire.{message_name, WireMessage, frame}
use mcp_loadtest.Distributed.Controller.Types.{
  Phase, AgentState, JobState, cohort_not_ready, unexpected_frame,
}
use mcp_loadtest.Distributed.Controller.Types.Phase.{awaiting_hello, preparing, finished}
use mcp_loadtest.Distributed.Controller.{
  new, enlisted, accept, start_all, cancel_all, is_terminal, final_evidence,
}
use mcp_loadtest.Distributed.Controller.Run.{Command, receive, start, step, run}
use mcp_loadtest.Distributed.Controller.Invariant.{Inv, new-Inv, run-new-Inv}
use mcp_loadtest.Distributed.Controller.Later.{Later, run-Keeps}
use mcp_loadtest.Distributed.Controller.Gate.{Loaded, Opened, gate}
use mcp_loadtest.Distributed.Controller.Target.{same_target}
use mcp_loadtest.Distributed.Controller.Frames.{Refusal, accept-Refusal, Answers, accept-Answers}
use mcp_loadtest.Distributed.Controller.Ending.{FinalResult, final_evidence-result}
use mcp_loadtest.Distributed.Controller.Cancel.{acks, cancel_all-terminates}

abbrev fresh : JobState
fresh = record {
  job_id = "job-1";
  agents = ("east", enlisted (prepare "east" 0)) ∷ ("west", enlisted (prepare "west" 1)) ∷ [];
  ready_signature = none;
}

fresh_from_new : new cohort ≡ ok fresh
unfolding new get insert str_eq
fresh_from_new = refl

-- Both workers greet, get ready, are started and finish.
abbrev greet_and_prepare : List Command
greet_and_prepare =
    receive "east" hello_frame
    ∷ receive "west" hello_frame
    ∷ receive "east" (ready_frame "east")
    ∷ receive "west" (ready_frame "west")
    ∷ []

abbrev whole_run : List Command
whole_run =
    receive "east" hello_frame
    ∷ receive "west" hello_frame
    ∷ receive "east" (ready_frame "east")
    ∷ receive "west" (ready_frame "west")
    ∷ start 500
    ∷ receive "west" (finished_frame "west" 1)
    ∷ receive "east" (finished_frame "east" 0)
    ∷ []

abbrev at_phase : Phase → AgentState → AgentState
at_phase p a = record a { phase = p }

abbrev east_done : AgentState
east_done = record (enlisted (prepare "east" 0)) {
  phase = finished;
  final_evidence = some (report "east" 0);
}

whole_run_finishes :
    final_evidence (run fresh whole_run) ≡ ok (report "east" 0 ∷ report "west" 1 ∷ [])
unfolding final_evidence run step get update str_eq
whole_run_finishes = refl

too_early : (start_all fresh 500).1 ≡ err cohort_not_ready
unfolding start_all
too_early = refl

fresh-Inv : Inv fresh
fresh-Inv = new-Inv cohort fresh_from_new

run-new-Inv_example : Inv (run fresh whole_run)
run-new-Inv_example = run-new-Inv cohort whole_run fresh_from_new

east_runs : Loaded "east" (run fresh whole_run)
unfolding run step get update str_eq
east_runs = record { entry = east_done; found = refl; load = refl }

gate_example : Opened fresh whole_run
gate_example = gate cohort whole_run "east" fresh_from_new east_runs

run-Keeps_example :
    (b : AgentState) × (get "east" (run fresh whole_run).agents ≡ some b)
    × Later (enlisted (prepare "east" 0)) b
unfolding get
run-Keeps_example = run-Keeps fresh whole_run "east" (enlisted (prepare "east" 0)) refl

abbrev greeted : JobState
greeted = record fresh {
  agents =
      ("east", at_phase preparing (enlisted (prepare "east" 0)))
      ∷ ("west", at_phase preparing (enlisted (prepare "west" 1)))
      ∷ [];
}

same_target_example :
    ((readiness "east").target_protocol_version ≡ (readiness "west").target_protocol_version)
    × ((readiness "east").tool_inventory_hash ≡ (readiness "west").tool_inventory_hash)
unfolding accept run step get update str_eq
same_target_example =
    same_target greeted "east" "west" (ready_frame "east") (ready_frame "west") (readiness "east")
      (readiness "west") [] {o = none} {o' = none} refl refl refl refl

accept-Refusal_example : Refusal fresh "east" (accept fresh "east" (ready_frame "east")).0
unfolding accept get str_eq message_name
accept-Refusal_example =
    accept-Refusal fresh "east" (ready_frame "east")
      (unexpected_frame "east" awaiting_hello "ready") refl

accept-Answers_example :
    Answers fresh
      (accept fresh "east" hello_frame).0
      "east"
      hello_frame
      (frame (WireMessage.prepare (prepare "east" 0)))
unfolding accept get str_eq
accept-Answers_example =
    accept-Answers fresh "east" hello_frame (frame (WireMessage.prepare (prepare "east" 0))) refl

final_evidence-result_example : FinalResult (run fresh whole_run) true
unfolding run step get update str_eq
final_evidence-result_example =
    final_evidence-result (run fresh whole_run) (run-new-Inv cohort whole_run fresh_from_new)

abbrev greetings : List Command
greetings = receive "east" hello_frame ∷ receive "west" hello_frame ∷ []

abbrev both_greeted : JobState
both_greeted = run fresh greetings

cancel_all-terminates_example :
    is_terminal (
      run
        (cancel_all both_greeted "stop").0
        (acks both_greeted.job_id "stopped" (keys (cancel_all both_greeted "stop").1)))
    ≡ true
cancel_all-terminates_example =
    cancel_all-terminates (run fresh greetings) "stop" "stopped"
      (run-new-Inv cohort greetings fresh_from_new)
