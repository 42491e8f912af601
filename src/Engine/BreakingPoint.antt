-- ===== src/Engine/BreakingPoint.antt =====
-- crates/engine/src/breaking_point.rs: at which concurrency of a ramp a budget is first exceeded.
pub mod First
mod Tests
use mcp_loadtest.Base.{
  ℕ, ◌+◌, ◌-◌, ◌/◌, Bool, true, false, ◌&&◌, ◌||◌, List, [], ◌∷◌, ◌++◌, Option, none, some, ltb,
  ◌==◌, if◌then◌else◌,
}
use mcp_loadtest.Base.Float.{F64, zero_f64, of_nat, div, lt}
use mcp_loadtest.Core.Metrics.{ScenarioMetrics}

-- `BreakingPointConfig`, whose `Duration` is its number of nanoseconds.
pub record Config : Type 0 where
  pub max_p99_latency : ℕ
  pub max_error_rate : F64
  pub window_secs : F64

abbrev pub Sample : Type 0
Sample = ℕ × ScenarioMetrics

pub record Detector : Type 0 where
  pub config : Config
  pub samples : List Sample

-- The text of the trigger is the kind of it and the values that it is formatted from.
pub data Trigger : Type 0 where
  p99_latency : (millis budget_millis concurrency : ℕ) → Trigger
  error_rate : (rate budget : F64) (concurrency : ℕ) → Trigger

pub record Report : Type 0 where
  pub broke_at_concurrent : Option ℕ
  pub last_known_good : Option ℕ
  pub samples : List Sample
  pub trigger : Option Trigger

unfoldable pub new : Config → Detector
new config = record { config = config; samples = [] }

unfoldable pub observe : Detector → ℕ → ScenarioMetrics → Detector
observe d concurrent metrics = record d { samples = d.samples ++ (concurrent, metrics) ∷ [] }

unfoldable pub compute_error_rate : ScenarioMetrics → F64
compute_error_rate m =
    let total = m.throughput.total_requests in
    if total == 0
    then zero_f64
    else div (of_nat (total - m.throughput.successful_requests)) (of_nat total)

abbrev pub too_slow : Config → ScenarioMetrics → Bool
too_slow c m = ltb 0 m.latency.count && ltb c.max_p99_latency m.latency.p99

abbrev pub too_faulty : Config → ScenarioMetrics → Bool
too_faulty c m = lt c.max_error_rate (compute_error_rate m)

abbrev pub millis : ℕ → ℕ
millis nanos = nanos / 1000000

abbrev pub broken : List Sample → Option ℕ → ℕ → Trigger → Report
broken all good concurrent t = record {
  broke_at_concurrent = some concurrent;
  last_known_good = good;
  samples = all;
  trigger = some t;
}

-- The loop over the samples that are left.
unfoldable pub scan : Config → List Sample → Option ℕ → List Sample → Report
scan c all good [] = record {
  broke_at_concurrent = none;
  last_known_good = good;
  samples = all;
  trigger = none;
}
scan c all good ((concurrent, m) ∷ rest) =
    let later = scan c all (some concurrent) rest in
    if too_slow c m
    then broken all good concurrent
        (p99_latency (millis m.latency.p99) (millis c.max_p99_latency) concurrent)
    else if too_faulty c m
    then broken all good concurrent (error_rate (compute_error_rate m) c.max_error_rate concurrent)
    else later

unfoldable pub breaking_point : Detector → Report
breaking_point d = scan d.config d.samples none d.samples
