-- ===== src/Distributed/Samples.antt =====
-- A job of two workers for the tests of the distributed modules (as in the tests of
-- crates/distributed/src/state.rs).
use mcp_loadtest.Base.{ℕ, ◌^◌, String, List, [], ◌∷◌, none, some, false, true}
use mcp_loadtest.Base.Float.{finite}
use mcp_loadtest.Base.Json.{object, end}
use mcp_loadtest.Core.Metrics.{OutcomeCounts, no_outcomes}
use mcp_loadtest.Core.Outcome.{no_outcome}
use mcp_loadtest.Distributed.Plan.{
  AgentShard, PatternPlan, RemoteTarget, sustained, pattern, continue, http,
}
use mcp_loadtest.Distributed.Evidence.{AgentEvidence}
use mcp_loadtest.Distributed.Wire.{
  HelloFrame, PrepareFrame, ReadyFrame, WireFrame, WireMessage, frame,
}

abbrev pub target : RemoteTarget
target = record {
  transport = http;
  url = "https://api.example/mcp";
  startup_timeout_ms = 10000;
  protocol_version = some "2025-11-25";
  headers_from_env = [];
  allowed_hosts = [];
  strict_validation = true;
  auth = none;
}

-- Weight 1.0 is 2 ^ 1074 units.
abbrev pub echo : PatternPlan
echo = record {
  name = "echo";
  weight = finite false (2 ^ 1074);
  think_time_ms = 0;
  on_step_error = continue;
  steps = record { tool = "echo"; args = object end } ∷ [];
}

abbrev pub shard : String → ℕ → AgentShard
shard name index = record { agent_name = name; index = index; agent_count = 2; concurrency = 1 }

abbrev pub prepare : String → ℕ → PrepareFrame
prepare name index = record {
  job_id = "job-1";
  config_digest = "sha256:config";
  target = target;
  plan = record {
    scenario = sustained;
    concurrency = 1;
    duration_ms = 1000;
    patterns = echo ∷ [];
    seed = index;
  };
  shard = shard name index;
  heartbeat_interval_ms = 1000;
}

abbrev pub cohort : List PrepareFrame
cohort = prepare "east" 0 ∷ prepare "west" 1 ∷ []

abbrev pub greeting : HelloFrame
greeting = record {
  agent_name = none;
  binary_version = "0.2.0";
  scenarios = sustained ∷ pattern ∷ [];
  max_concurrency = 100;
}

abbrev pub readiness : String → ReadyFrame
readiness name = record {
  job_id = "job-1";
  agent_name = name;
  live_workers = 1;
  requested_workers = 1;
  tool_inventory_hash = "sha256:tools";
  target_protocol_version = "2025-11-25";
}

abbrev pub outcomes : OutcomeCounts
outcomes = record no_outcomes { success = 2; hang = 1 }

abbrev pub report : String → ℕ → AgentEvidence
report name index = record {
  agent_name = name;
  shard = shard name index;
  metrics = record {
    latency = record { encoding = "hdr-v2-base64"; payload = "AAAA"; count = 3 };
    outcomes = outcomes;
  };
  per_tool = [];
  scenario_outcome = record no_outcome { total_calls = 3 };
  measurement_elapsed_ms = 1000;
  start_delay_ms = 5;
  target_protocol_version = "2025-11-25";
  tool_inventory_hash = "sha256:tools";
}

abbrev pub hello_frame : WireFrame
hello_frame = frame (WireMessage.hello greeting)

abbrev pub ready_frame : String → WireFrame
ready_frame name = frame (WireMessage.ready (readiness name))

abbrev pub finished_frame : String → ℕ → WireFrame
finished_frame name index =
    frame (WireMessage.finished (record { job_id = "job-1"; evidence = report name index }))
