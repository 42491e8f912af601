-- ===== src/Distributed/Controller/Display.antt =====
-- The texts of `ControllerStateError` (crates/distributed/src/state.rs).
use mcp_loadtest.Base.{String, [], ◌∷◌, concat, decimal}
use mcp_loadtest.Distributed.Controller.Types.{
  Phase, Error, empty_cohort, duplicate_agent, unknown_agent, unsupported_protocol, job_mismatch,
  agent_mismatch, capability_mismatch, readiness_shortfall, target_protocol_mismatch,
  tool_inventory_mismatch, unexpected_frame, cohort_not_ready, missing_final_evidence, evidence,
}
use mcp_loadtest.Distributed.Controller.Types.Phase.{
  awaiting_hello, preparing, ready, running, finished, failed, cancelling, cancelled,
}

-- `{phase:?}`
pub debug_phase : Phase → String
debug_phase awaiting_hello = "AwaitingHello"
debug_phase preparing = "Preparing"
debug_phase ready = "Ready"
debug_phase running = "Running"
debug_phase finished = "Finished"
debug_phase failed = "Failed"
debug_phase cancelling = "Cancelling"
debug_phase cancelled = "Cancelled"

unfoldable pub display : Error → String
unfolding debug_phase decimal
display empty_cohort = "controller job requires at least one agent"
display (duplicate_agent name) = concat ("duplicate controller agent `" ∷ name ∷ "`" ∷ [])
display (unknown_agent name) = concat ("unknown controller agent `" ∷ name ∷ "`" ∷ [])
display (unsupported_protocol p) = concat ("unsupported distributed protocol `" ∷ p ∷ "`" ∷ [])
display (job_mismatch expected got) =
    concat ("job id mismatch: expected `" ∷ expected ∷ "`, got `" ∷ got ∷ "`" ∷ [])
display (agent_mismatch expected got) =
    concat ("agent mismatch: expected `" ∷ expected ∷ "`, got `" ∷ got ∷ "`" ∷ [])
display (capability_mismatch agent) =
    concat ("agent `" ∷ agent ∷ "` does not satisfy requested capabilities" ∷ [])
display (readiness_shortfall agent requested live) = concat (
    "agent `"
    ∷ agent
    ∷ "` prepared "
    ∷ decimal live
    ∷ "/"
    ∷ decimal requested
    ∷ " requested workers"
    ∷ [])
display (target_protocol_mismatch agent expected got) = concat (
    "agent `" ∷ agent ∷ "` target protocol mismatch: expected `" ∷ expected ∷ "`, got `" ∷ got ∷ "`"
    ∷ [])
display (tool_inventory_mismatch agent) =
    concat ("agent `" ∷ agent ∷ "` observed a different target tool inventory" ∷ [])
display (unexpected_frame agent phase message) =
    concat ("unexpected `" ∷ message ∷ "` from `" ∷ agent ∷ "` while in " ∷ debug_phase phase ∷ [])
display cohort_not_ready = "cannot start before every configured agent is ready"
display (missing_final_evidence agent) = concat ("agent `" ∷ agent ∷ "` has no final evidence" ∷ [])
display (evidence text) = concat ("invalid evidence identity: " ∷ text ∷ [])
