-- ===== src/Engine/Thresholds/Budgets.antt =====
-- When the checks of crates/engine/src/run/thresholds.rs find nothing: the budgets, as predicates.
use mcp_loadtest.Base.{
  ℕ, suc, ◌-◌, ◌<◌, ◌≤◌, true, false, not, List, [], ◌∷◌, ◌++◌, Option, none, some, String, ◌≡◌,
  refl, ◌↔◌, arith, All, length, Option-cases, inl, inr,
}
use mcp_loadtest.Base.Float.{F64, of_nat, div, lt, is_finite}
use mcp_loadtest.Base.Order.{str_ord}
use mcp_loadtest.Base.Map.{get}
use mcp_loadtest.Core.Metrics.{ThroughputStats, ScenarioMetrics}
use mcp_loadtest.Core.Report.{
  ProcessSample, ProcessStats, ThresholdKind, p50_latency, p95_latency, p99_latency, p999_latency,
  ThresholdViolation, Report,
}
use mcp_loadtest.Core.Thresholds.{ToolSlo, ThresholdsConfig}
use mcp_loadtest.Engine.LeakDetect.{detect_leak}
use mcp_loadtest.Engine.Thresholds.{
  check_latency, check_error_rate, check_memory_growth, check_rss_slope, find_bad, position, series,
  observed_growth, evaluate_thresholds, evaluate_tool_slos, given, judge_tool, judge_slope,
}

-- What is asked of a budget, if there is one.
abbrev pub Given {ℓ κ} : {A : Type ℓ} → Option A → (A → Type κ) → Type κ
Given none P = Unit
Given (some a) P = P a

-- Something was measured, and it is within the budget.
abbrev pub LatencyWithin : (budget actual count : ℕ) → Type 0
LatencyWithin budget actual count = (0 < count) × (actual ≤ budget)

abbrev pub RateWithin : ThroughputStats → F64 → Type 0
RateWithin t budget =
    (0 < t.total_requests)
    × (lt budget (div (of_nat (t.total_requests - t.successful_requests)) (of_nat t.total_requests))
        ≡ false)

pub record GrowthWithin (p : ProcessStats) (budget : F64) : Type 0 where
  pub sampled : 0 < length p.samples
  pub samples_finite : All (λ (s : ProcessSample). is_finite s.rss_mb ≡ true) p.samples
  pub peak_finite : is_finite p.peak_rss_mb ≡ true
  pub baseline_finite : is_finite p.baseline_rss_mb ≡ true
  pub within : lt budget (observed_growth p) ≡ false

pub record SlopeWithin (samples : List ProcessSample) (budget : F64) : Type 0 where
  pub sampled : 3 ≤ length samples
  pub samples_finite :
      All
        (λ (s : ProcessSample). (is_finite s.at_secs ≡ true) × (is_finite s.rss_mb ≡ true))
        samples
  pub slope : F64
  pub fitted : detect_leak (series samples) ≡ some slope
  pub slope_finite : is_finite slope ≡ true
  pub within : lt budget slope ≡ false

abbrev pub ToolWithin : List (String × ScenarioMetrics) → ToolSlo → Type 0
ToolWithin per_tool slo =
    (m : ScenarioMetrics) × (get slo.tool per_tool ≡ some m)
    × (0 < m.latency.count)
    × (m.latency.p99 ≤ slo.p99_latency)

pub record Meets (c : ThresholdsConfig) (r : Report) (per_tool : List (String × ScenarioMetrics))
    : Type 0 where
  pub p50 : Given c.p50_latency (λ b. LatencyWithin b r.metrics.latency.p50 r.metrics.latency.count)
  pub p95 : Given c.p95_latency (λ b. LatencyWithin b r.metrics.latency.p95 r.metrics.latency.count)
  pub p99 : Given c.p99_latency (λ b. LatencyWithin b r.metrics.latency.p99 r.metrics.latency.count)
  pub p999 :
      Given c.p999_latency (λ b. LatencyWithin b r.metrics.latency.p999 r.metrics.latency.count)
  pub rate : Given c.error_rate (λ b. RateWithin r.metrics.throughput b)
  pub growth : Given c.memory_growth_mb (λ b. GrowthWithin r.process b)
  pub slope : Given c.rss_leak_mb_per_sec (λ b. SlopeWithin r.process.samples b)
  pub tools : All (ToolWithin per_tool) c.tool_slos

-- Two lists of violations are empty together.
both {ℓ κ} :
    {P : Type ℓ} {Q : Type κ} (xs ys : List ThresholdViolation)
    → ((xs ≡ []) ↔ P)
    → ((ys ≡ []) ↔ Q)
    → (xs ++ ys ≡ []) ↔ (P × Q)
both [] ys p q = (λ h. (p.0 refl, q.0 h), λ w. q.1 w.1)
both (x ∷ xs) ys p q = (λ h. absurd (ground arith), λ w. absurd (ground (arith, p.1 w.0)))

given-eq-nil {ℓ κ} :
    {A : Type ℓ} {P : A → Type κ} (o : Option A) (check : A → List ThresholdViolation)
    → ((a : A) → (check a ≡ []) ↔ P a)
    → (given o check ≡ []) ↔ Given o P
given-eq-nil none check h = (λ _. tt, λ _. refl)
given-eq-nil (some a) check h = h a

check_latency-eq-nil :
    (k : ThresholdKind) (b a n : ℕ) → (check_latency k b a n ≡ []) ↔ LatencyWithin b a n
unfolding check_latency
check_latency-eq-nil k b a n = ground arith

check_error_rate-eq-nil :
    (t : ThroughputStats) (b : F64) → (check_error_rate t b ≡ []) ↔ RateWithin t b
unfolding check_error_rate
check_error_rate-eq-nil t b = ground arith

position-eq-none :
    (i : ℕ) (samples : List ProcessSample)
    → (position (λ s. not (is_finite s.rss_mb)) i samples ≡ none)
      ↔ All (λ (s : ProcessSample). is_finite s.rss_mb ≡ true) samples
position-eq-none i [] = (λ _. tt, λ _. refl)
position-eq-none i (s ∷ rest) = ground (arith, position-eq-none (suc i) rest)

find_bad-eq-none :
    (i : ℕ) (samples : List ProcessSample)
    → (find_bad i samples ≡ none)
      ↔ All
          (λ (s : ProcessSample). (is_finite s.at_secs ≡ true) × (is_finite s.rss_mb ≡ true))
          samples
unfolding find_bad
find_bad-eq-none i [] = (λ _. tt, λ _. refl)
find_bad-eq-none i (s ∷ rest) = ground (arith, find_bad-eq-none (suc i) rest)

check_memory_growth-eq-nil :
    (p : ProcessStats) (b : F64) → (check_memory_growth p b ≡ []) ↔ GrowthWithin p b
unfolding check_memory_growth
check_memory_growth-eq-nil p b = ground (arith, position-eq-none 0 p.samples)

-- The slope that is judged, if there are samples enough and all are finite.
judged :
    (samples : List ProcessSample) (b : F64)
    → check_rss_slope b samples ≡ []
    → (3 ≤ length samples)
      × (find_bad 0 samples ≡ none)
      × (judge_slope b (detect_leak (series samples)) ≡ [])
unfolding check_rss_slope
judged samples b h = ground arith

judge_slope-eq-nil :
    (b : F64) (fitted : Option F64)
    → judge_slope b fitted ≡ []
    → (slope : F64) × (fitted ≡ some slope) × (is_finite slope ≡ true) × (lt b slope ≡ false)
judge_slope-eq-nil b none h = cc
judge_slope-eq-nil b (some slope) h = (slope, refl, ground arith, ground arith)

check_rss_slope-eq-nil :
    (samples : List ProcessSample) (b : F64)
    → (check_rss_slope b samples ≡ []) ↔ SlopeWithin samples b
unfolding check_rss_slope
check_rss_slope-eq-nil samples b = (
  λ h.
      let (many, fine, flat) = judged samples b h in
      let (slope, fitted, finite, within) = judge_slope-eq-nil b _ flat in
      record {
        sampled = many;
        samples_finite = (find_bad-eq-none 0 samples).0 fine;
        slope = slope;
        fitted = fitted;
        slope_finite = finite;
        within = within;
      },
  λ w. ground (arith, (find_bad-eq-none 0 samples).1 w.samples_finite, w.fitted, w.slope_finite),
)

judge_tool-eq-nil :
    (per_tool : List (String × ScenarioMetrics)) (slo : ToolSlo)
    → (judge_tool slo (get slo.tool per_tool) ≡ []) ↔ ToolWithin per_tool slo
judge_tool-eq-nil per_tool slo = elim (Option-cases (get slo.tool per_tool)) [
  | inl missing ↦ (λ h. ground arith, λ w. ground (arith, w.1))
  | inr (m, found) ↦ (λ h. (m, found, ground arith, ground arith), λ w. ground (arith, w.1))
]

evaluate_tool_slos-eq-nil :
    (slos : List ToolSlo) (per_tool : List (String × ScenarioMetrics))
    → (evaluate_tool_slos slos per_tool ≡ []) ↔ All (ToolWithin per_tool) slos
unfolding evaluate_tool_slos
evaluate_tool_slos-eq-nil [] per_tool = (λ _. tt, λ _. refl)
evaluate_tool_slos-eq-nil (slo ∷ rest) per_tool =
    both _ _ (judge_tool-eq-nil per_tool slo) (evaluate_tool_slos-eq-nil rest per_tool)

latency-eq-nil :
    (k : ThresholdKind) (o : Option ℕ) (a n : ℕ)
    → (given o (λ b. check_latency k b a n) ≡ []) ↔ Given o (λ b. LatencyWithin b a n)
latency-eq-nil k o a n = given-eq-nil o _ (λ b. check_latency-eq-nil k b a n)

-- The budgets of the whole run, in the order of the checks.
abbrev Global : ThresholdsConfig → Report → Type 0
Global c r =
    let l = r.metrics.latency in
    Given c.p50_latency (λ b. LatencyWithin b l.p50 l.count)
    × (Given c.p95_latency (λ b. LatencyWithin b l.p95 l.count)
        × (Given c.p99_latency (λ b. LatencyWithin b l.p99 l.count)
            × (Given c.p999_latency (λ b. LatencyWithin b l.p999 l.count)
                × (Given c.error_rate (λ b. RateWithin r.metrics.throughput b)
                    × (Given c.memory_growth_mb (λ b. GrowthWithin r.process b)
                        × Given c.rss_leak_mb_per_sec (λ b. SlopeWithin r.process.samples b))))))

evaluate_thresholds-eq-nil :
    (c : ThresholdsConfig) (r : Report) → (evaluate_thresholds c r ≡ []) ↔ Global c r
unfolding evaluate_thresholds
evaluate_thresholds-eq-nil c r =
    let l = r.metrics.latency in
    both _ _ (latency-eq-nil p50_latency c.p50_latency l.p50 l.count) (
      both _ _ (latency-eq-nil p95_latency c.p95_latency l.p95 l.count) (
        both _ _ (latency-eq-nil p99_latency c.p99_latency l.p99 l.count) (
          both _ _ (latency-eq-nil p999_latency c.p999_latency l.p999 l.count) (
            both _ _ (given-eq-nil c.error_rate _ (check_error_rate-eq-nil r.metrics.throughput)) (
              both _ _ (given-eq-nil c.memory_growth_mb _ (check_memory_growth-eq-nil r.process)) (
                given-eq-nil c.rss_leak_mb_per_sec _
                  (check_rss_slope-eq-nil r.process.samples)))))))

-- No violation is found exactly if every budget is met.
pub violations-eq-nil :
    (c : ThresholdsConfig) (r : Report) (per_tool : List (String × ScenarioMetrics))
    → (evaluate_thresholds c r ++ evaluate_tool_slos c.tool_slos per_tool ≡ []) ↔ Meets c r per_tool
violations-eq-nil c r per_tool =
    let parts =
      both _ _ (evaluate_thresholds-eq-nil c r) (evaluate_tool_slos-eq-nil c.tool_slos per_tool) in
    (
      λ h. collect (parts.0 h).0 (parts.0 h).1,
      λ m. parts.1 ((m.p50, (m.p95, (m.p99, (m.p999, (m.rate, (m.growth, m.slope)))))), m.tools),
    )
  where
    collect : Global c r → All (ToolWithin per_tool) c.tool_slos → Meets c r per_tool
    collect (p50, (p95, (p99, (p999, (rate, (growth, slope)))))) tools = record {
      p50 = p50;
      p95 = p95;
      p99 = p99;
      p999 = p999;
      rate = rate;
      growth = growth;
      slope = slope;
      tools = tools;
    }
