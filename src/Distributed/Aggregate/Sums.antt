-- ===== src/Distributed/Aggregate/Sums.antt =====
-- The sums of counters in crates/distributed/src/aggregate.rs are exact.
use mcp_loadtest.Base.{
  ℕ, ◌+◌, ◌<◌, String, List, [], ◌∷◌, ◌++◌, map, Result, ok, ◌>>=◌, ◌≡◌, refl, ap, ◌∙◌, sum, arith,
}
use mcp_loadtest.Base.Checked.{checked_add, u64_limit}
use mcp_loadtest.Core.Metrics.{CallOutcome, OutcomeCounts}
use mcp_loadtest.Core.Metrics.CallOutcome.{
  success, hang, deadlock, timeout, server_error, protocol_error, crash, malformed, disconnected,
  cancelled, expected_rejection,
}
use mcp_loadtest.Core.Outcome.{ScenarioOutcome}
use mcp_loadtest.Distributed.Aggregate.Types.{Error}
use mcp_loadtest.Distributed.Aggregate.Counters.{
  add_counter, add_outcomes, add_all, outcome_total, add_scenario_outcome, note_of,
}

-- The counter of one class of outcomes.
abbrev pub count : CallOutcome → OutcomeCounts → ℕ
count success o = o.success
count hang o = o.hang
count deadlock o = o.deadlock
count timeout o = o.timeout
count server_error o = o.server_error
count protocol_error o = o.protocol_error
count crash o = o.crash
count malformed o = o.malformed
count disconnected o = o.disconnected
count cancelled o = o.cancelled
count expected_rejection o = o.expected_rejection

pub add_counter_exact :
    (limit : ℕ) (name : String) (a b : ℕ) {c : ℕ}
    → add_counter limit name a b ≡ ok c
    → (c ≡ a + b) × (c < limit)
unfolding add_counter checked_add
add_counter_exact limit name a b h = ground arith

-- A counter that is added before the rest of a chain that succeeds.
add_then {ℓ} :
    {U : Type ℓ} {u : U} (limit : ℕ) (name : String) (a b : ℕ) (next : ℕ → Result Error U)
    → (add_counter limit name a b >>= next) ≡ ok u
    → (next (a + b) ≡ ok u) × (a + b < limit)
unfolding add_counter checked_add
add_then limit name a b next h = ground arith

abbrev pub plus : OutcomeCounts → OutcomeCounts → OutcomeCounts
plus a b = record {
  success = a.success + b.success;
  hang = a.hang + b.hang;
  deadlock = a.deadlock + b.deadlock;
  timeout = a.timeout + b.timeout;
  server_error = a.server_error + b.server_error;
  protocol_error = a.protocol_error + b.protocol_error;
  crash = a.crash + b.crash;
  malformed = a.malformed + b.malformed;
  disconnected = a.disconnected + b.disconnected;
  cancelled = a.cancelled + b.cancelled;
  expected_rejection = a.expected_rejection + b.expected_rejection;
}

pub add_outcomes-plus :
    (a b : OutcomeCounts) {r : OutcomeCounts} → add_outcomes a b ≡ ok r → r ≡ plus a b
unfolding add_outcomes add_counter checked_add
add_outcomes-plus a b h = ground arith

pub add_outcomes_exact :
    (c : CallOutcome) (a b : OutcomeCounts) {r : OutcomeCounts}
    → add_outcomes a b ≡ ok r
    → count c r ≡ count c a + count c b
add_outcomes_exact c a b {r} h = ap (count c) (add_outcomes-plus a b h) ∙ parts c
  where
    parts : (k : CallOutcome) → count k (plus a b) ≡ count k a + count k b
    parts success = refl
    parts k = ground arith

-- Every class, in the order of `outcome_total`.
abbrev pub every_class : List CallOutcome
every_class =
    success ∷ hang ∷ deadlock ∷ timeout ∷ server_error ∷ protocol_error ∷ crash ∷ malformed
    ∷ disconnected ∷ cancelled ∷ expected_rejection ∷ []

pub outcome_total_exact :
    (o : OutcomeCounts) {n : ℕ}
    → outcome_total o ≡ ok n
    → (n ≡ sum (map (λ c. count c o) every_class)) × (n < u64_limit)
unfolding outcome_total add_all add_counter checked_add
outcome_total_exact o h = ground arith

abbrev pub plus_scenario : ScenarioOutcome → ScenarioOutcome → String → ScenarioOutcome
plus_scenario a b agent = record {
  total_calls = a.total_calls + b.total_calls;
  successful_calls = a.successful_calls + b.successful_calls;
  hang_count = a.hang_count + b.hang_count;
  deadlock_count = a.deadlock_count + b.deadlock_count;
  error_count = a.error_count + b.error_count;
  divergence_count = a.divergence_count + b.divergence_count;
  incomplete_worker_count = a.incomplete_worker_count + b.incomplete_worker_count;
  teardown_failure_count = a.teardown_failure_count + b.teardown_failure_count;
  notes = a.notes ++ map (note_of agent) b.notes;
  hung_for_ms = a.hung_for_ms ++ b.hung_for_ms;
}

pub add_scenario-plus :
    (a b : ScenarioOutcome) (agent : String) {r : ScenarioOutcome}
    → add_scenario_outcome a b agent ≡ ok r
    → r ≡ plus_scenario a b agent
unfolding add_scenario_outcome add_counter checked_add
add_scenario-plus a b agent h = ground arith
