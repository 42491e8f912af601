-- ===== src/Engine/Thresholds/Verdict.antt =====
-- The verdict on a run: `evaluate_report_thresholds` (crates/engine/src/run/mod.rs), then `passed`
-- (crates/core/src/report.rs).
use mcp_loadtest.Base.{◌<◌, ◌≤◌, true, List, [], ◌++◌, String, ◌≡◌, ◌↔◌, ◌⊎◌, arith, str_eq_iff}
use mcp_loadtest.Core.Metrics.{ScenarioMetrics, OutcomeCounts}
use mcp_loadtest.Core.Report.{Report, ThresholdViolation, passed, is_diagnostic}
use mcp_loadtest.Core.Thresholds.{ThresholdsConfig}
use mcp_loadtest.Engine.Thresholds.{
  evaluate_report_thresholds, evaluate_thresholds, evaluate_tool_slos,
}
use mcp_loadtest.Engine.Thresholds.Budgets.{Meets, violations-eq-nil}

-- No call ended in a way that fails the run whatever the budgets are.
pub record Unharmed (o : OutcomeCounts) : Type 0 where
  pub deadlock : o.deadlock ≡ 0
  pub timeout : o.timeout ≡ 0
  pub protocol_error : o.protocol_error ≡ 0
  pub crash : o.crash ≡ 0
  pub malformed : o.malformed ≡ 0
  pub disconnected : o.disconnected ≡ 0
  pub cancelled : o.cancelled ≡ 0

-- A scenario that diagnoses the server.
abbrev pub Diagnoses : String → Type 0
Diagnoses name = (name ≡ "race_check") ⊎ (name ≡ "deadlock_probe") ⊎ (name ≡ "fuzzer")

-- The run did something, all of it was accounted for, and nothing broke.
pub record Sound (r : Report) : Type 0 where
  pub attempted : 0 < r.scenario_outcome.total_calls
  pub succeeded : 0 < r.scenario_outcome.successful_calls
  pub accounted : r.scenario_outcome.successful_calls ≤ r.scenario_outcome.total_calls
  pub deadlocks : r.scenario_outcome.deadlock_count ≡ 0
  pub divergences : r.scenario_outcome.divergence_count ≡ 0
  pub workers : r.scenario_outcome.incomplete_worker_count ≡ 0
  pub teardowns : r.scenario_outcome.teardown_failure_count ≡ 0
  pub diagnosis :
      Diagnoses r.scenario_name
      → (r.scenario_outcome.error_count ≡ 0)
        × (r.scenario_outcome.hang_count ≡ 0)
        × (r.metrics.outcomes.hang ≡ 0)
  pub unharmed : Unharmed r.metrics.outcomes

is_diagnostic_iff : (name : String) → (is_diagnostic name ≡ true) ↔ Diagnoses name
is_diagnostic_iff name = ground (
  arith,
  str_eq_iff name "race_check",
  str_eq_iff name "deadlock_probe",
  str_eq_iff name "fuzzer",
)

passed_iff :
    (r : Report) (found : List ThresholdViolation)
    → (passed (record r { threshold_violations = found }) ≡ true) ↔ ((found ≡ []) × Sound r)
unfolding passed
passed_iff r found = ground (
  arith,
  str_eq_iff r.scenario_name "race_check",
  str_eq_iff r.scenario_name "deadlock_probe",
  str_eq_iff r.scenario_name "fuzzer",
)

-- A run passes, once its thresholds are evaluated, exactly if every budget that is configured is met on
-- evidence that was measured, for the whole run and for each tool, and the run is sound: it made calls,
-- some of them succeeded, no worker or teardown failed, no outcome that always fails a run was
-- recorded, and a scenario that diagnoses the server saw neither an error nor a hang.
pub passed-evaluate_report_thresholds :
    (c : ThresholdsConfig) (r : Report) (per_tool : List (String × ScenarioMetrics))
    → (passed (evaluate_report_thresholds c r per_tool) ≡ true) ↔ (Meets c r per_tool × Sound r)
unfolding evaluate_report_thresholds
passed-evaluate_report_thresholds c r per_tool =
    let found = evaluate_thresholds c r ++ evaluate_tool_slos c.tool_slos per_tool in
    let verdict = passed_iff r found in
    let budgets = violations-eq-nil c r per_tool in
    (λ h. (budgets.0 (verdict.0 h).0, (verdict.0 h).1), λ w. verdict.1 (budgets.1 w.0, w.1))
