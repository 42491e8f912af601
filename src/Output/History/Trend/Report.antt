-- ===== src/Output/History/Trend/Report.antt =====
-- The report of `analyze_trend` (crates/output/src/history/trend.rs) and the samples it stands on.
use mcp_loadtest.Base.{
  ℕ, suc, zero, ◌-◌, ◌≤◌, Bool, true, List, [], ◌∷◌, filter, length, str_eq_iff, ◌≡◌, ◌≢◌, inl, inr,
  arith, All, Bool-cases, ok, err, Result, Result-cases, ◌⊎◌, subst,
}
use mcp_loadtest.Base.Order.{Ord, str_ord}
use mcp_loadtest.Base.Pairs.{pair_ord}
use mcp_loadtest.Base.Sorting.{sort_by, place, before}
use mcp_loadtest.Output.History.Types.{Error, HistorySample, TrendPolicy, TrendReport}
use mcp_loadtest.Output.History.Trend.{
  analyze_trend, baseline, is_eligible, same_cohort, started, drop, validate_policy,
  validate_sample,
}
use mcp_loadtest.Output.History.Trend.Evidence.{same_option_eq}
use mcp_loadtest.Output.History.Trend.Gates.{Verdict, validate_policy-Valid, report_of-Verdict}

-- A run that the current one is compared with.
pub record Comparable (current s : HistorySample) : Type 0 where
  pub passed : s.passed ≡ true
  pub other_run : s.run_id ≢ current.run_id
  pub series : s.series ≡ current.series
  pub scenario : s.scenario ≡ current.scenario
  pub protocol : s.protocol_version ≡ current.protocol_version
  pub topology : s.execution_fingerprint ≡ current.execution_fingerprint

is_eligible-Comparable :
    (current s : HistorySample) → is_eligible current s ≡ true → Comparable current s
unfolding is_eligible same_cohort
is_eligible-Comparable current s h = ground (
  arith,
  str_eq_iff s.run_id current.run_id,
  str_eq_iff s.series current.series,
  str_eq_iff s.scenario current.scenario,
  same_option_eq s.protocol_version current.protocol_version,
  same_option_eq s.execution_fingerprint current.execution_fingerprint,
)

module _ {ℓ κ} {A : Type ℓ} (P : A → Type κ) where
  All-filter : (q : A → Bool) (xs : List A) → ((x : A) → q x ≡ true → P x) → All P (filter q xs)
  All-filter q [] h = tt
  All-filter q (x ∷ xs) h = elim (Bool-cases (q x)) [
    | inl e ↦ rw e (h x e, All-filter q xs h)
    | inr e ↦ rw e (All-filter q xs h)
  ]

  All-drop : (n : ℕ) (xs : List A) → All P xs → All P (drop n xs)
  All-drop n [] a = tt
  All-drop zero (x ∷ xs) a = a
  All-drop (suc n) (x ∷ xs) a = All-drop n xs a.1

  module _ {μ} {K : Type μ} ⦃o : Ord K⦄ (key : A → K) where
    All-place : (x : A) (xs : List A) → P x → All P xs → All P (place key x xs)
    unfolding place
    All-place x [] p a = (p, tt)
    All-place x (y ∷ xs) p a = elim (Bool-cases (before key x y)) [
      | inl e ↦ rw e (p, a)
      | inr e ↦ rw e (a.0, All-place x xs p a.1)
    ]

    All-sort_by : (xs : List A) → All P xs → All P (sort_by key xs)
    unfolding sort_by
    All-sort_by [] a = tt
    All-sort_by (x ∷ xs) a = All-place x (sort_by key xs) a.0 (All-sort_by xs a.1)

length-drop {ℓ} : {A : Type ℓ} (n : ℕ) (xs : List A) → length (drop n xs) ≤ length xs - n
length-drop n [] = omega arith
length-drop zero (x ∷ xs) = omega arith
length-drop (suc n) (x ∷ xs) = omega (arith, length-drop n xs)

baseline-Comparable :
    (samples : List HistorySample) (current : HistorySample) (window : ℕ)
    → All (Comparable current) (baseline samples current window)
unfolding baseline
baseline-Comparable samples current window = All-drop (Comparable current) _ _ (
    All-sort_by (Comparable current) started _ (
      All-filter (Comparable current) (is_eligible current) samples
        (is_eligible-Comparable current)))

length-baseline :
    (samples : List HistorySample) (current : HistorySample) (window : ℕ)
    → length (baseline samples current window) ≤ window
unfolding baseline
length-baseline samples current window =
    let eligible = sort_by started (filter (is_eligible current) samples) in
    omega (arith, length-drop (length eligible - window) eligible)

-- If the analysis succeeds, it compares the run with at most as many samples as the window holds, each of
-- a run that passed, is another and is of the same series, scenario, protocol and topology. The report
-- counts them, it is warming up exactly as long as they are fewer than the policy asks for, and it has a
-- regression exactly if they are enough and one of the four gates is exceeded: the 99th percentile or
-- the drop of the throughput in percent of a positive median, the error rate in points above the median,
-- or, where no deadlock is tolerated, the deadlocks above the median.
pub analyze_trend-Verdict :
    (samples : List HistorySample) (current : HistorySample) (policy : TrendPolicy)
    (r : TrendReport)
    → analyze_trend samples current policy ≡ ok r
    → Verdict (baseline samples current policy.window) current policy r
      × (length (baseline samples current policy.window) ≤ policy.window)
      × All (Comparable current) (baseline samples current policy.window)
unfolding analyze_trend
analyze_trend-Verdict samples current policy r h = (
  verdict (Result-cases (validate_sample current)) (Result-cases (validate_policy policy)),
  length-baseline samples current policy.window,
  baseline-Comparable samples current policy.window,
)
  where
    Outcome : Result Error (Unit {0}) → Type 0
    Outcome m = ((t : Unit {0}) × (m ≡ ok t)) ⊎ ((failure : Error) × (m ≡ err failure))

    verdict :
        Outcome (validate_sample current)
        → Outcome (validate_policy policy)
        → Verdict (baseline samples current policy.window) current policy r
    verdict (inl (t, sound)) (inl (u, valid)) =
        subst (Verdict (baseline samples current policy.window) current policy)
          (ground (arith, sound, valid))
          (report_of-Verdict _ current policy (validate_policy-Valid policy valid))
    verdict (inl (t, sound)) (inr (failure, bad)) = absurd (ground (arith, sound, bad))
    verdict (inr (failure, bad)) _ = absurd (ground (arith, bad))
