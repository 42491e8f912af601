-- ===== src/Distributed/Controller.antt =====
-- crates/distributed/src/state.rs: `ControllerJobState`. A method that takes `&mut self` returns the
-- new state beside its result, so that what an error leaves behind is part of the model.
pub mod Types
pub mod Handlers
pub mod Display
pub mod Moves
pub mod Run
pub mod Invariant
pub mod Later
pub mod Gate
pub mod Sent
pub mod Target
pub mod Frames
pub mod Ending
pub mod Cancel
mod Tests
use Types.{
  Phase, AgentState, JobState, Signature, Error, Handled, is_ready, is_failed, is_ended,
  empty_cohort, duplicate_agent, unknown_agent, unsupported_protocol, job_mismatch, agent_mismatch,
  capability_mismatch, readiness_shortfall, target_protocol_mismatch, tool_inventory_mismatch,
  unexpected_frame, cohort_not_ready, missing_final_evidence, evidence,
}
use Types.Phase.{awaiting_hello, preparing, ready, running, finished, failed, cancelling, cancelled}
use Handlers.{dispatch}
use mathlib.Core.Option
use mcp_loadtest.Base.{
  ℕ, String, Bool, true, false, not, ◌&&◌, ◌||◌, List, [], ◌∷◌, Option, none, some, Result, ok, err,
  ◌>>=◌, ◌>>◌, reject, ok_or, ltb, leb, ◌==◌, if◌then◌else◌, str_eq, concat, all, any,
}
use mcp_loadtest.Base.Order.{str_ord}
use mcp_loadtest.Base.Map.{get, insert, update, values, map_values}
use mcp_loadtest.Distributed.Plan.{SupportedScenario, sustained, pattern}
use mcp_loadtest.Distributed.Evidence.{AgentEvidence}
use mcp_loadtest.Distributed.Wire.{
  HelloFrame, PrepareFrame, ReadyFrame, ProgressFrame, HeartbeatFrame, FinishedFrame, FailedFrame,
  CancelledFrame, WireMessage, WireFrame, wire_protocol, frame, message_name,
}

abbrev pub enlisted : PrepareFrame → AgentState
enlisted p = record {
  phase = awaiting_hello;
  prepare = p;
  latest_progress = none;
  final_evidence = none;
  failure = none;
}

-- The loop of `new`, over the frames left and the map so far.
pub enlist :
    String
    → List PrepareFrame
    → List (String × AgentState)
    → Result Error (List (String × AgentState))
enlist job [] agents = ok agents
enlist job (p ∷ ps) agents =
    let name = p.shard.agent_name in
    let rest = enlist job ps (insert name (enlisted p) agents) in
    if not (str_eq p.job_id job)
    then err (job_mismatch job p.job_id)
    else elim (get name agents) [ none ↦ rest | some _ ↦ err (duplicate_agent name) ]

unfoldable pub new : List PrepareFrame → Result Error JobState
unfolding enlist
new [] = err empty_cohort
new (p ∷ ps) = do
  agents ← enlist p.job_id (p ∷ ps) []
  ok (record { job_id = p.job_id; agents = agents; ready_signature = none })

pub phase : JobState → String → Option Phase
phase s agent = Option.map (λ a. a.phase) (get agent s.agents)

abbrev pub commit : JobState → String → Handled → JobState × Result Error (Option WireFrame)
commit s agent h =
    (record s { agents = update agent h.agent s.agents; ready_signature = h.signature }, h.reply)

unfoldable pub accept : JobState → String → WireFrame → JobState × Result Error (Option WireFrame)
unfolding dispatch
accept s agent f =
    if not (str_eq f.protocol wire_protocol)
    then (s, err (unsupported_protocol f.protocol))
    else elim (get agent s.agents) [
      | none ↦ (s, err (unknown_agent agent))
      | some a ↦ commit s agent (dispatch a.phase f.message s.job_id s.ready_signature agent a)
    ]

unfoldable pub all_ready : JobState → Bool
all_ready s = all (λ a. is_ready a.phase) (values s.agents)

abbrev pub start_frame : String → ℕ → WireFrame
start_frame job lead = frame (WireMessage.start (record { job_id = job; start_after_ms = lead }))

abbrev pub address : WireFrame → List (String × AgentState) → List (String × WireFrame)
address f [] = []
address f ((name, a) ∷ rest) = (name, f) ∷ address f rest

unfoldable pub start_all : JobState → ℕ → JobState × Result Error (List (String × WireFrame))
unfolding all_ready
start_all s lead = if not (all_ready s) then (s, err cohort_not_ready) else (
  record s { agents = map_values (λ a. record a { phase = running }) s.agents },
  ok (address (start_frame s.job_id lead) s.agents),
)

-- What `cancel_all` makes of one agent's phase, and whether it sends a frame.
abbrev pub cancel_phase : Phase → Phase
cancel_phase finished = finished
cancel_phase failed = failed
cancel_phase cancelled = cancelled
cancel_phase awaiting_hello = cancelled
cancel_phase _ = cancelling

abbrev pub wants_cancel : Phase → Bool
wants_cancel awaiting_hello = false
wants_cancel p = not (is_ended p)

abbrev pub cancel_frame : String → String → WireFrame
cancel_frame job reason = frame (WireMessage.cancel (record { job_id = job; reason = reason }))

abbrev pub cancel_frames : WireFrame → List (String × AgentState) → List (String × WireFrame)
cancel_frames f [] = []
cancel_frames f ((name, a) ∷ rest) =
    if wants_cancel a.phase then (name, f) ∷ cancel_frames f rest else cancel_frames f rest

unfoldable pub cancel_all : JobState → String → JobState × List (String × WireFrame)
cancel_all s reason = (
  record s { agents = map_values (λ a. record a { phase = cancel_phase a.phase }) s.agents },
  cancel_frames (cancel_frame s.job_id reason) s.agents,
)

pub is_terminal : JobState → Bool
is_terminal s = all (λ a. is_ended a.phase) (values s.agents)

pub has_failure : JobState → Bool
has_failure s = any (λ a. is_failed a.phase) (values s.agents)

-- `final_evidence.or(latest_progress)`
abbrev pub latest_of : AgentState → Option AgentEvidence
latest_of a = elim a.final_evidence [
  | some e ↦ some e
  | none ↦ Option.map (λ p. p.1) a.latest_progress
]

pub latest_evidence : JobState → String → Option AgentEvidence
latest_evidence s agent = Option.bind (get agent s.agents) latest_of

collect_final : List (String × AgentState) → Result Error (List AgentEvidence)
collect_final [] = ok []
collect_final ((name, a) ∷ rest) = do
  e ← ok_or a.final_evidence (missing_final_evidence name)
  es ← collect_final rest
  ok (e ∷ es)

pub final_evidence : JobState → Result Error (List AgentEvidence)
unfolding collect_final
final_evidence s = collect_final s.agents
