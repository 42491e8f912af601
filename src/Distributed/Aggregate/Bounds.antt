-- ===== src/Distributed/Aggregate/Bounds.antt =====
-- The sums of counters in crates/distributed/src/aggregate.rs stay within the bounds of their types.
use mcp_loadtest.Base.{ℕ, ◌<◌, String, ok, ◌≡◌, arith}
use mcp_loadtest.Base.Checked.{checked_add, u64_limit}
use mcp_loadtest.Core.Metrics.{CallOutcome, OutcomeCounts}
use mcp_loadtest.Core.Metrics.CallOutcome.{
  success, hang, deadlock, timeout, server_error, protocol_error, crash, malformed, disconnected,
  cancelled, expected_rejection,
}
use mcp_loadtest.Core.Outcome.{ScenarioOutcome}
use mcp_loadtest.Distributed.Aggregate.Counters.{add_counter, add_outcomes, add_scenario_outcome}
use mcp_loadtest.Distributed.Aggregate.Sums.{count}

-- The counters of `ScenarioOutcome`.
pub data Tally : Type 0 where
  total_calls successful_calls hang_count deadlock_count error_count divergence_count : Tally
  incomplete_worker_count teardown_failure_count : Tally

abbrev pub tally : Tally → ScenarioOutcome → ℕ
tally Tally.total_calls s = s.total_calls
tally Tally.successful_calls s = s.successful_calls
tally Tally.hang_count s = s.hang_count
tally Tally.deadlock_count s = s.deadlock_count
tally Tally.error_count s = s.error_count
tally Tally.divergence_count s = s.divergence_count
tally Tally.incomplete_worker_count s = s.incomplete_worker_count
tally Tally.teardown_failure_count s = s.teardown_failure_count

-- The bound of a counter's type, `u32` or `u64`.
abbrev pub tally_limit : Tally → ℕ
tally_limit Tally.hang_count = 4294967296
tally_limit Tally.deadlock_count = 4294967296
tally_limit _ = 18446744073709551616

pub add_scenario_fits :
    (t : Tally) (a b : ScenarioOutcome) (agent : String) {r : ScenarioOutcome}
    → add_scenario_outcome a b agent ≡ ok r
    → tally t r < tally_limit t
unfolding add_scenario_outcome add_counter checked_add
add_scenario_fits Tally.total_calls a b agent h = ground arith
add_scenario_fits Tally.successful_calls a b agent h = ground arith
add_scenario_fits Tally.hang_count a b agent h = ground arith
add_scenario_fits Tally.deadlock_count a b agent h = ground arith
add_scenario_fits Tally.error_count a b agent h = ground arith
add_scenario_fits Tally.divergence_count a b agent h = ground arith
add_scenario_fits Tally.incomplete_worker_count a b agent h = ground arith
add_scenario_fits Tally.teardown_failure_count a b agent h = ground arith

pub add_outcomes_fits :
    (c : CallOutcome) (a b : OutcomeCounts) {r : OutcomeCounts}
    → add_outcomes a b ≡ ok r
    → count c r < u64_limit
unfolding add_outcomes add_counter checked_add
add_outcomes_fits success a b h = ground arith
add_outcomes_fits hang a b h = ground arith
add_outcomes_fits deadlock a b h = ground arith
add_outcomes_fits timeout a b h = ground arith
add_outcomes_fits server_error a b h = ground arith
add_outcomes_fits protocol_error a b h = ground arith
add_outcomes_fits crash a b h = ground arith
add_outcomes_fits malformed a b h = ground arith
add_outcomes_fits disconnected a b h = ground arith
add_outcomes_fits cancelled a b h = ground arith
add_outcomes_fits expected_rejection a b h = ground arith
