-- ===== src/Distributed/Controller/Handlers.antt =====
-- crates/distributed/src/state.rs: the arms of `ControllerJobState::accept`, each on the agent that
-- sent the frame, and the checks that they share.
use mcp_loadtest.Distributed.Controller.Types.{
  Phase, AgentState, Signature, Error, Handled, agent_mismatch, capability_mismatch,
  readiness_shortfall, target_protocol_mismatch, tool_inventory_mismatch, unexpected_frame,
  job_mismatch, evidence,
}
use mcp_loadtest.Distributed.Controller.Types.Phase.{
  awaiting_hello, preparing, ready, running, finished, failed, cancelling, cancelled,
}
use mcp_loadtest.Base.{
  ℕ, String, Bool, true, false, not, ◌&&◌, ◌||◌, [], ◌∷◌, Option, none, some, Result, ok, err, ◌>>◌,
  reject, ltb, ◌==◌, if◌then◌else◌, str_eq, concat, any,
}
use mcp_loadtest.Distributed.Plan.{SupportedScenario, sustained, pattern}
use mcp_loadtest.Distributed.Evidence.{AgentEvidence}
use mcp_loadtest.Distributed.Wire.{
  HelloFrame, PrepareFrame, ReadyFrame, ProgressFrame, HeartbeatFrame, FinishedFrame, FailedFrame,
  CancelledFrame, WireMessage, frame, message_name,
}

abbrev pub scenario_eq : SupportedScenario → SupportedScenario → Bool
scenario_eq sustained sustained = true
scenario_eq pattern pattern = true
scenario_eq _ _ = false

unfoldable pub check_name : String → Option String → Result Error (Unit {0})
check_name agent none = ok tt
check_name agent (some name) = reject (not (str_eq name agent)) (agent_mismatch agent name)

unfoldable pub validate_hello : String → HelloFrame → PrepareFrame → Result Error (Unit {0})
unfolding check_name
validate_hello agent hello p = do
  check_name agent hello.agent_name
  reject
      (not (any (scenario_eq p.plan.scenario) hello.scenarios)
        || ltb hello.max_concurrency p.plan.concurrency)
      (capability_mismatch agent)

unfoldable pub validate_job : String → String → Result Error (Unit {0})
validate_job expected got = reject (not (str_eq expected got)) (job_mismatch expected got)

unfoldable pub validate_evidence_agent : String → AgentEvidence → Result Error (Unit {0})
validate_evidence_agent expected e =
    reject (not (str_eq e.agent_name expected && str_eq e.shard.agent_name expected)) (
      evidence (
        concat (
          "expected `" ∷ expected ∷ "`, got evidence `" ∷ e.agent_name ∷ "` / shard `"
          ∷ e.shard.agent_name ∷ "`" ∷ [])))

-- `return Err(e)`, and `check?` before the rest of a handler.
abbrev pub refuse : AgentState → Option Signature → Error → Handled
refuse a sig e = record { agent = a; signature = sig; reply = err e }

unfoldable pub after : AgentState → Option Signature → Result Error (Unit {0}) → Handled → Handled
after a sig (ok _) next = next
after a sig (err e) next = refuse a sig e

abbrev pub accepted : AgentState → Option Signature → Handled
accepted a sig = record { agent = a; signature = sig; reply = ok none }

unfoldable pub on_hello : Option Signature → String → AgentState → HelloFrame → Handled
on_hello sig agent a hello = after a sig (validate_hello agent hello a.prepare) (record {
  agent = record a { phase = preparing };
  signature = sig;
  reply = ok (some (frame (WireMessage.prepare a.prepare)));
})

-- `self.ready_signature` against what this worker saw.
unfoldable pub on_signature : Option Signature → String → AgentState → ReadyFrame → Handled
on_signature none agent a r =
    accepted (record a { phase = ready }) (some (r.target_protocol_version, r.tool_inventory_hash))
on_signature (some (protocol, inventory)) agent a r =
    let sig = some (protocol, inventory) in
    let lost = record a { phase = failed } in
    if not (str_eq r.target_protocol_version protocol)
    then refuse lost sig (target_protocol_mismatch agent protocol r.target_protocol_version)
    else if not (str_eq r.tool_inventory_hash inventory)
    then refuse lost sig (tool_inventory_mismatch agent)
    else accepted (record a { phase = ready }) sig

unfoldable pub is_short : AgentState → ReadyFrame → Bool
is_short a r =
    not (r.requested_workers == a.prepare.shard.concurrency)
    || not (r.live_workers == r.requested_workers)
    || str_eq r.tool_inventory_hash ""
    || str_eq r.target_protocol_version ""

unfoldable pub on_ready : String → Option Signature → String → AgentState → ReadyFrame → Handled
on_ready job sig agent a r = after a sig (validate_job job r.job_id) (
    if not (str_eq r.agent_name agent)
    then refuse a sig (agent_mismatch agent r.agent_name)
    else if is_short a r
    then refuse (record a { phase = failed }) sig
        (readiness_shortfall agent a.prepare.shard.concurrency r.live_workers)
    else on_signature sig agent a r)

-- A checkpoint replaces an earlier one only if its number is greater.
unfoldable pub is_newer : ℕ → Option (ℕ × AgentEvidence) → Bool
is_newer sequence none = true
is_newer sequence (some (last, _)) = ltb last sequence

unfoldable pub on_progress :
    String → Option Signature → String → AgentState → ProgressFrame → Handled
on_progress job sig agent a p = after a sig (validate_job job p.job_id) (
    after a sig (validate_evidence_agent agent p.evidence) (
      accepted
        (if is_newer p.sequence a.latest_progress
          then record a { latest_progress = some (p.sequence, p.evidence) }
          else a)
        sig))

unfoldable pub on_heartbeat : String → Option Signature → AgentState → HeartbeatFrame → Handled
on_heartbeat job sig a h = after a sig (validate_job job h.job_id) (accepted a sig)

unfoldable pub on_finished :
    String → Option Signature → String → AgentState → FinishedFrame → Handled
on_finished job sig agent a f = after a sig (validate_job job f.job_id) (
    after a sig (validate_evidence_agent agent f.evidence)
      (accepted (record a { phase = finished; final_evidence = some f.evidence }) sig))

unfoldable pub on_cancelled : String → Option Signature → AgentState → CancelledFrame → Handled
on_cancelled job sig a c =
    after a sig (validate_job job c.job_id) (accepted (record a { phase = cancelled }) sig)

unfoldable pub on_failed : String → Option Signature → AgentState → FailedFrame → Handled
on_failed job sig a f =
    after a sig (validate_job job f.job_id)
      (accepted (record a { phase = failed; failure = some f }) sig)

-- The `match` of `accept`; the last clause is its last arm.
unfoldable pub dispatch :
    Phase → WireMessage → String → Option Signature → String → AgentState → Handled
unfolding on_hello on_ready on_progress on_heartbeat on_finished on_cancelled on_failed after
    check_name validate_hello validate_job validate_evidence_agent is_newer is_short on_signature
dispatch awaiting_hello (WireMessage.hello h) job sig agent a = on_hello sig agent a h
dispatch preparing (WireMessage.ready r) job sig agent a = on_ready job sig agent a r
dispatch running (WireMessage.progress p) job sig agent a = on_progress job sig agent a p
dispatch preparing (WireMessage.heartbeat h) job sig agent a = on_heartbeat job sig a h
dispatch ready (WireMessage.heartbeat h) job sig agent a = on_heartbeat job sig a h
dispatch running (WireMessage.heartbeat h) job sig agent a = on_heartbeat job sig a h
dispatch running (WireMessage.finished f) job sig agent a = on_finished job sig agent a f
dispatch cancelling (WireMessage.cancelled c) job sig agent a = on_cancelled job sig a c
dispatch awaiting_hello (WireMessage.failed f) job sig agent a = on_failed job sig a f
dispatch preparing (WireMessage.failed f) job sig agent a = on_failed job sig a f
dispatch ready (WireMessage.failed f) job sig agent a = on_failed job sig a f
dispatch running (WireMessage.failed f) job sig agent a = on_failed job sig a f
dispatch cancelling (WireMessage.failed f) job sig agent a = on_failed job sig a f
dispatch p m job sig agent a = refuse a sig (unexpected_frame agent p (message_name m))
