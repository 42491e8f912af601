-- ===== src/Distributed/Aggregate/Counters.antt =====
-- crates/distributed/src/aggregate.rs: the checked sums of counters.
use mcp_loadtest.Base.{ℕ, String, List, [], ◌∷◌, ◌++◌, map, Result, ok, ok_or, ◌>>=◌, concat}
use mcp_loadtest.Base.Checked.{checked_add, u32_limit, u64_limit}
use mcp_loadtest.Core.Metrics.{OutcomeCounts}
use mcp_loadtest.Core.Outcome.{ScenarioOutcome}
use mcp_loadtest.Distributed.Aggregate.Types.{Error, counter_overflow}

unfoldable pub add_counter : ℕ → String → ℕ → ℕ → Result Error ℕ
add_counter limit name a b = ok_or (checked_add limit a b) (counter_overflow name)

unfoldable pub add_outcomes : OutcomeCounts → OutcomeCounts → Result Error OutcomeCounts
add_outcomes a b = do
  success ← add_counter u64_limit "success" a.success b.success
  hang ← add_counter u64_limit "hang" a.hang b.hang
  deadlock ← add_counter u64_limit "deadlock" a.deadlock b.deadlock
  timeout ← add_counter u64_limit "timeout" a.timeout b.timeout
  server_error ← add_counter u64_limit "server_error" a.server_error b.server_error
  protocol_error ← add_counter u64_limit "protocol_error" a.protocol_error b.protocol_error
  crash ← add_counter u64_limit "crash" a.crash b.crash
  malformed ← add_counter u64_limit "malformed" a.malformed b.malformed
  disconnected ← add_counter u64_limit "disconnected" a.disconnected b.disconnected
  cancelled ← add_counter u64_limit "cancelled" a.cancelled b.cancelled
  expected_rejection ←
      add_counter u64_limit "expected_rejection" a.expected_rejection b.expected_rejection
  ok (record {
    success = success;
    hang = hang;
    deadlock = deadlock;
    timeout = timeout;
    server_error = server_error;
    protocol_error = protocol_error;
    crash = crash;
    malformed = malformed;
    disconnected = disconnected;
    cancelled = cancelled;
    expected_rejection = expected_rejection;
  })

abbrev named : OutcomeCounts → List (String × ℕ)
named o =
    ("success", o.success)
    ∷ ("hang", o.hang)
    ∷ ("deadlock", o.deadlock)
    ∷ ("timeout", o.timeout)
    ∷ ("server_error", o.server_error)
    ∷ ("protocol_error", o.protocol_error)
    ∷ ("crash", o.crash)
    ∷ ("malformed", o.malformed)
    ∷ ("disconnected", o.disconnected)
    ∷ ("cancelled", o.cancelled)
    ∷ ("expected_rejection", o.expected_rejection)
    ∷ []

unfoldable pub add_all : ℕ → List (String × ℕ) → Result Error ℕ
add_all total [] = ok total
add_all total ((name, n) ∷ rest) = do next ← add_counter u64_limit name total n; add_all next rest

unfoldable pub outcome_total : OutcomeCounts → Result Error ℕ
outcome_total o = add_all 0 (named o)

abbrev pub note_of : String → String → String
note_of agent note = concat ("agent " ∷ agent ∷ ": " ∷ note ∷ [])

unfoldable pub add_scenario_outcome :
    ScenarioOutcome → ScenarioOutcome → String → Result Error ScenarioOutcome
add_scenario_outcome a b agent = do
  hang_count ← add_counter u32_limit "hang_count" a.hang_count b.hang_count
  deadlock_count ← add_counter u32_limit "deadlock_count" a.deadlock_count b.deadlock_count
  total_calls ← add_counter u64_limit "total_calls" a.total_calls b.total_calls
  successful_calls ← add_counter u64_limit "successful_calls" a.successful_calls b.successful_calls
  error_count ← add_counter u64_limit "error_count" a.error_count b.error_count
  divergence_count ← add_counter u64_limit "divergence_count" a.divergence_count b.divergence_count
  incomplete_worker_count ←
      add_counter u64_limit "incomplete_worker_count" a.incomplete_worker_count
        b.incomplete_worker_count
  teardown_failure_count ←
      add_counter u64_limit "teardown_failure_count" a.teardown_failure_count
        b.teardown_failure_count
  ok (record {
    total_calls = total_calls;
    successful_calls = successful_calls;
    hang_count = hang_count;
    deadlock_count = deadlock_count;
    error_count = error_count;
    divergence_count = divergence_count;
    incomplete_worker_count = incomplete_worker_count;
    teardown_failure_count = teardown_failure_count;
    notes = a.notes ++ map (note_of agent) b.notes;
    hung_for_ms = a.hung_for_ms ++ b.hung_for_ms;
  })
