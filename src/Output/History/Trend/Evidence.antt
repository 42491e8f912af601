-- ===== src/Output/History/Trend/Evidence.antt =====
-- Which samples of the history `analyze_trend` (crates/output/src/history/trend.rs) goes by.
use mcp_loadtest.Base.{
  Bool, true, false, List, [], ◌∷◌, ◌++◌, filter, Option, none, some, String, str_eq_iff, ◌≡◌, ◌≢◌,
  refl, ◌⊎◌, inl, inr, arith, ap, Bool-cases, ◌∙◌,
}
use mcp_loadtest.Base.Order.{str_ord}
use mcp_loadtest.Base.Pairs.{pair_ord}
use mcp_loadtest.Base.Sorting.{
  Exchanged, same_order, swap, deeper, after, Apart, sort_by, sort_by-Exchanged,
}
use mcp_loadtest.Output.History.Types.{HistorySample, TrendPolicy}
use mcp_loadtest.Output.History.Trend.{
  analyze_trend, baseline, is_eligible, same_cohort, same_option, started,
}

-- A sample that the current run is not compared with: a run that did not pass, the run itself, or one
-- of another series, scenario, protocol or topology.
abbrev pub Unfit : HistorySample → HistorySample → Type 0
Unfit current s =
    (s.passed ≡ false)
    ⊎ (s.run_id ≡ current.run_id)
    ⊎ (s.series ≢ current.series)
    ⊎ (s.scenario ≢ current.scenario)
    ⊎ (s.protocol_version ≢ current.protocol_version)
    ⊎ (s.execution_fingerprint ≢ current.execution_fingerprint)

-- Histories that differ in the order of samples of different starts or runs, and in unfit samples.
pub data Alike (current : HistorySample) : List HistorySample → List HistorySample → Type 0 where
  reordered : (xs ys : List HistorySample) → Exchanged (Apart started) xs ys → Alike current xs ys
  ignored :
      (xs ys : List HistorySample) (s : HistorySample)
      → Unfit current s
      → Alike current (xs ++ s ∷ ys) (xs ++ ys)
  both :
      (xs ys zs : List HistorySample)
      → Alike current xs ys
      → Alike current ys zs
      → Alike current xs zs

pub same_option_eq : (a b : Option String) → same_option a b ≡ true → a ≡ b
same_option_eq none none h = refl
same_option_eq none (some t) h = cc
same_option_eq (some s) none h = cc
same_option_eq (some s) (some t) h = ground (arith, str_eq_iff s t)

Unfit-is_eligible : (current s : HistorySample) → Unfit current s → is_eligible current s ≡ false
unfolding is_eligible same_cohort
Unfit-is_eligible current s u = ground (
  arith,
  str_eq_iff s.run_id current.run_id,
  str_eq_iff s.series current.series,
  str_eq_iff s.scenario current.scenario,
  same_option_eq s.protocol_version current.protocol_version,
  same_option_eq s.execution_fingerprint current.execution_fingerprint,
)

module _ {ℓ κ} {A : Type ℓ} {R : A → A → Type κ} (p : A → Bool) where
  filter-Exchanged : (xs ys : List A) → Exchanged R xs ys → Exchanged R (filter p xs) (filter p ys)
  filter-Exchanged xs ys (same_order _) = same_order _
  filter-Exchanged _ _ (swap x y xs r) = elim (Bool-cases (p x)) [
    | inl hx ↦ elim (Bool-cases (p y)) [
      | inl hy ↦ rw (hx, hy) (swap x y (filter p xs) r)
      | inr hy ↦ rw (hx, hy) (same_order (x ∷ filter p xs))
    ]
    | inr hx ↦ elim (Bool-cases (p y)) [
      | inl hy ↦ rw (hx, hy) (same_order (y ∷ filter p xs))
      | inr hy ↦ rw (hx, hy) (same_order (filter p xs))
    ]
  ]
  filter-Exchanged _ _ (deeper x xs ys e) = elim (Bool-cases (p x)) [
    | inl h ↦ rw h (deeper x _ (filter p ys) (filter-Exchanged xs ys e))
    | inr h ↦ rw h (filter-Exchanged xs ys e)
  ]
  filter-Exchanged _ _ (after xs ys zs e f) =
      after _ (filter p ys) _ (filter-Exchanged xs ys e) (filter-Exchanged ys zs f)

filter-ignored {ℓ} :
    {A : Type ℓ} (p : A → Bool) (xs ys : List A) (s : A)
    → p s ≡ false
    → filter p (xs ++ s ∷ ys) ≡ filter p (xs ++ ys)
filter-ignored p [] ys s h = rw h refl
filter-ignored p (x ∷ xs) ys s h = ground (arith, filter-ignored p xs ys s h)

sorted_alike :
    (current : HistorySample) (xs ys : List HistorySample)
    → Alike current xs ys
    → sort_by started (filter (is_eligible current) xs)
      ≡ sort_by started (filter (is_eligible current) ys)
sorted_alike current xs ys (reordered _ _ e) =
    sort_by-Exchanged started (filter-Exchanged (is_eligible current) xs ys e)
sorted_alike current _ _ (ignored xs ys s u) =
    ap (sort_by started)
      (filter-ignored (is_eligible current) xs ys s (Unfit-is_eligible current s u))
sorted_alike current _ _ (both xs ys zs h k) =
    sorted_alike current xs ys h ∙ sorted_alike current ys zs k

-- Histories that differ only in the order of their samples, as long as no two exchanged have both the
-- same start and the same run, and in samples that the current run is not compared with, give the same
-- result.
pub analyze_trend-Alike :
    (xs ys : List HistorySample) (current : HistorySample) (policy : TrendPolicy)
    → Alike current xs ys
    → analyze_trend xs current policy ≡ analyze_trend ys current policy
unfolding analyze_trend baseline
analyze_trend-Alike xs ys current policy h = rw (sorted_alike current xs ys h) refl
