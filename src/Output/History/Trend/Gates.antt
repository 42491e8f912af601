-- ===== src/Output/History/Trend/Gates.antt =====
-- When `analyze_trend` (crates/output/src/history/trend.rs) reports a regression.
use mcp_loadtest.Base.{
  ℕ, ◌≤◌, ◌<◌, Bool, true, false, not, ◌&&◌, ◌||◌, List, [], ◌∷◌, map, filter, length, is_empty,
  Option, none, some, String, ◌≡◌, refl, ◌↔◌, ◌⊎◌, inl, inr, arith, Bool-cases, ok, leb,
  if◌then◌else◌, any,
}
use mcp_loadtest.Base.Float.{F64, zero_f64, of_nat, lt, le_zero, is_finite, sub, negate}
use mcp_loadtest.Output.History.Types.{
  HistorySample, TrendPolicy, TrendStatus, warming_up, TrendMetric, TrendReport,
}
use mcp_loadtest.Output.History.Trend.{
  baseline, median, change_in_percent, percentage_change, trend_metric, informational_ascending,
  relative_ascending, throughput_metric, error_rate_metric, deadlock_metric, build_metrics,
  is_regressed, report_of, validate_policy, is_bad_limit,
}

-- Over the threshold in percent, above a baseline that is not zero.
abbrev pub SlowerBy : (baseline current threshold : F64) → Type 0
SlowerBy baseline current threshold =
    (lt zero_f64 baseline ≡ true) × (lt threshold (change_in_percent baseline current) ≡ true)

abbrev pub DroppedBy : (baseline current : F64) → Option F64 → Type 0
DroppedBy baseline current none = ⊥
DroppedBy baseline current (some threshold) =
    (lt zero_f64 baseline ≡ true)
    × (lt (change_in_percent baseline current) (negate threshold) ≡ true)

-- One of the four gates: the 99th percentile, the throughput, the errors, the deadlocks.
abbrev pub Worse : List HistorySample → HistorySample → TrendPolicy → Type 0
Worse samples current p =
    SlowerBy (median (map (λ (s : HistorySample). s.p99_ms) samples)) current.p99_ms
      p.regression.p99_pct
    ⊎ DroppedBy (median (map (λ (s : HistorySample). s.requests_per_sec) samples))
        current.requests_per_sec p.max_rps_drop_pct
    ⊎ (lt p.regression.error_rate_pp (
          sub current.error_rate_pct
            (median (map (λ (s : HistorySample). s.error_rate_pct) samples)))
        ≡ true)
    ⊎ ((p.regression.deadlock_zero_tolerance ≡ true)
        × (lt (median (map (λ (s : HistorySample). of_nat s.deadlock_count) samples))
              (of_nat current.deadlock_count)
            ≡ true))

abbrev fires : TrendMetric → Bool
fires m = m.gating && is_regressed m.direction

informational_gate : (name : String) (b c : F64) → fires (informational_ascending name b c) ≡ false
unfolding informational_ascending trend_metric
informational_gate name b c = refl

positive : (b : F64) → lt zero_f64 b ≡ true → le_zero b ≡ false
unfolding lt le_zero
positive b h = ground arith

limit_above : (t : F64) → is_bad_limit t ≡ false → lt t zero_f64 ≡ false
unfolding lt le_zero is_finite
limit_above t h = ground arith

relative_gate :
    (name : String) (b c t : F64)
    → is_bad_limit t ≡ false
    → (fires (relative_ascending name b c t) ≡ true) ↔ SlowerBy b c t
unfolding relative_ascending trend_metric percentage_change
relative_gate name b c t h = ground (arith, positive b, limit_above t h)

throughput_gate :
    (b c : F64) (t : Option F64) → (fires (throughput_metric b c t) ≡ true) ↔ DroppedBy b c t
unfolding throughput_metric trend_metric percentage_change
throughput_gate b c none = ground arith
throughput_gate b c (some t) = ground arith

error_rate_gate : (b c t : F64) → (fires (error_rate_metric b c t) ≡ true) ↔ (lt t (sub c b) ≡ true)
unfolding error_rate_metric trend_metric
error_rate_gate b c t = ground arith

deadlock_gate :
    (b c : F64) (z : Bool) → (fires (deadlock_metric b c z) ≡ true) ↔ ((z ≡ true) × (lt b c ≡ true))
unfolding deadlock_metric trend_metric
deadlock_gate b c z = ground arith

-- Three tests that never hold leave the four others.
four_gates {ℓ κ μ ν} :
    {A : Type ℓ} {B : Type κ} {C : Type μ} {D : Type ν} (i j k a b c d : Bool)
    → i ≡ false
    → j ≡ false
    → k ≡ false
    → ((a ≡ true) ↔ A)
    → ((b ≡ true) ↔ B)
    → ((c ≡ true) ↔ C)
    → ((d ≡ true) ↔ D)
    → ((i || (j || (a || (b || (c || (d || (k || false))))))) ≡ true) ↔ (A ⊎ B ⊎ C ⊎ D)
four_gates i j k a b c d hi hj hk p q r t = ground arith

build_gate :
    (samples : List HistorySample) (current : HistorySample) (p : TrendPolicy)
    → is_bad_limit p.regression.p99_pct ≡ false
    → (any fires (build_metrics samples current p) ≡ true) ↔ Worse samples current p
unfolding build_metrics
build_gate samples current p h =
    four_gates _ _ _ _ _ _ _ (informational_gate "latency_p50_ms" _ _)
      (informational_gate "latency_p95_ms" _ _) (informational_gate "hang_count" _ _)
      (relative_gate "latency_p99_ms" _ _ _ h) (throughput_gate _ _ p.max_rps_drop_pct)
      (error_rate_gate _ _ p.regression.error_rate_pp)
      (deadlock_gate _ _ p.regression.deadlock_zero_tolerance)

-- What the policy is, if it is valid.
pub record Valid (p : TrendPolicy) : Type 0 where
  pub some_needed : 0 < p.min_samples
  pub limit : is_bad_limit p.regression.p99_pct ≡ false

pub validate_policy-Valid : (p : TrendPolicy) → validate_policy p ≡ ok tt → Valid p
unfolding validate_policy
validate_policy-Valid p h = ground arith

any-filter {ℓ} : {A : Type ℓ} (q : A → Bool) (xs : List A) → not (is_empty (filter q xs)) ≡ any q xs
any-filter q [] = refl
any-filter q (x ∷ xs) = ground (arith, any-filter q xs)

-- The verdict on the current run, from the samples that it is compared with.
pub record Verdict (b : List HistorySample) (current : HistorySample) (p : TrendPolicy)
    (r : TrendReport) : Type 0 where
  pub count : r.baseline_sample_count ≡ length b
  pub warming : (r.status ≡ warming_up) ↔ (length b < p.min_samples)
  pub fails : (r.status ≡ TrendStatus.regressed) ↔ (r.has_regression ≡ true)
  pub gate : (r.has_regression ≡ true) ↔ ((p.min_samples ≤ length b) × Worse b current p)

-- The regressions are looked for once there are samples enough.
gated :
    (needed found : ℕ) (metrics : List TrendMetric)
    → (not (is_empty (if leb needed found then filter fires metrics else [])) ≡ true)
      ↔ ((needed ≤ found) × (any fires metrics ≡ true))
gated needed found metrics = elim (Bool-cases (leb needed found)) [
  | inl e ↦ rw e (ground (arith, any-filter fires metrics))
  | inr e ↦ rw e (ground arith)
]

report_of-gate :
    (b : List HistorySample) (current : HistorySample) (p : TrendPolicy)
    → Valid p
    → ((report_of b current p).has_regression ≡ true)
      ↔ ((p.min_samples ≤ length b) × Worse b current p)
report_of-gate [] current p v = (
  λ h. absurd (omega (arith, ((gated p.min_samples 0 []).0 h).0, v.some_needed)),
  λ w. absurd (omega (arith, w.0, v.some_needed)),
)
report_of-gate (s ∷ rest) current p v =
    let gate = gated p.min_samples (length (s ∷ rest)) (build_metrics (s ∷ rest) current p) in
    let worse = build_gate (s ∷ rest) current p v.limit in
    (λ h. ((gate.0 h).0, worse.0 (gate.0 h).1), λ w. gate.1 (w.0, worse.1 w.1))

pub report_of-Verdict :
    (b : List HistorySample) (current : HistorySample) (p : TrendPolicy)
    → Valid p
    → Verdict b current p (report_of b current p)
report_of-Verdict b current p v = record {
  count = refl;
  warming = ground arith;
  fails = ground arith;
  gate = report_of-gate b current p v;
}
