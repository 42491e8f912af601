-- ===== src/Engine/BreakingPoint/First.antt =====
-- `breaking_point` (crates/engine/src/breaking_point.rs) finds the first sample over a budget.
use mcp_loadtest.Base.{
  ℕ, Bool, true, false, ◌||◌, List, [], ◌∷◌, ◌++◌, Option, none, some, ◌≡◌, refl, ap, arith, All,
  Bool-cases, inl, inr,
}
use mcp_loadtest.Core.Metrics.{ScenarioMetrics}
use mcp_loadtest.Engine.BreakingPoint.{
  Config, Sample, Detector, Trigger, Report, scan, breaking_point, observe, too_slow, too_faulty,
}

-- The sample is over one of the budgets.
abbrev pub violates : Config → Sample → Bool
violates c s = too_slow c s.1 || too_faulty c s.1

abbrev pub Within : Config → List Sample → Type 0
Within c samples = All (λ s. violates c s ≡ false) samples

-- The concurrency of the last of the samples, or what was there before them.
abbrev pub last_level : Option ℕ → List Sample → Option ℕ
last_level good [] = good
last_level good ((concurrent, m) ∷ rest) = last_level (some concurrent) rest

-- What the report says of the samples: none is over a budget, or there is a first one that is.
pub data Verdict (c : Config) (good : Option ℕ) (samples : List Sample) (r : Report) : Type 0 where
  held :
      Within c samples
      → r.broke_at_concurrent ≡ none
      → r.trigger ≡ none
      → r.last_known_good ≡ last_level good samples
      → Verdict c good samples r
  broke :
      (before after : List Sample) (first : Sample) (t : Trigger)
      → samples ≡ before ++ first ∷ after
      → Within c before
      → violates c first ≡ true
      → r.broke_at_concurrent ≡ some first.0
      → r.trigger ≡ some t
      → r.last_known_good ≡ last_level good before
      → Verdict c good samples r

-- A sample within the budgets goes before a verdict.
prepend :
    (c : Config) (good : Option ℕ) (s : Sample) (rest : List Sample) (r : Report)
    → violates c s ≡ false
    → Verdict c (some s.0) rest r
    → Verdict c good (s ∷ rest) r
prepend c good s rest r fine (held within none_broke none_fired last) =
    held (fine, within) none_broke none_fired last
prepend c good s rest r fine (broke before after first t split within over at fired last) =
    broke (s ∷ before) after first t (ap (λ l. s ∷ l) split) (fine, within) over at fired last

scan-Verdict :
    (c : Config) (all : List Sample) (good : Option ℕ) (samples : List Sample)
    → Verdict c good samples (scan c all good samples)
unfolding scan
scan-Verdict c all good [] = held tt refl refl refl
scan-Verdict c all good ((n, m) ∷ rest) = elim (Bool-cases (too_slow c m)) [
  | inl slow ↦ rw slow (broke [] rest (n, m) _ refl tt (rw slow refl) refl refl refl)
  | inr quick ↦ elim (Bool-cases (too_faulty c m)) [
    | inl faulty ↦
        rw (quick, faulty) (broke [] rest (n, m) _ refl tt (rw (quick, faulty) refl) refl refl refl)
    | inr fine ↦
        rw (quick, fine)
          (prepend c good (n, m) rest (scan c all (some n) rest) (rw (quick, fine) refl)
            (scan-Verdict c all (some n) rest))
  ]
]

-- The report names the first sample in the order of observation that is over the latency or the error
-- budget, with a trigger, and as last good level the one just before it; without such a sample it names
-- none, and the last level of all is good.
pub breaking_point-Verdict : (d : Detector) → Verdict d.config none d.samples (breaking_point d)
unfolding breaking_point
breaking_point-Verdict d = scan-Verdict d.config d.samples none d.samples

-- What a report says beside the samples that it repeats.
pub record Same (r q : Report) : Type 0 where
  pub broke_at : r.broke_at_concurrent ≡ q.broke_at_concurrent
  pub trigger : r.trigger ≡ q.trigger
  pub last : r.last_known_good ≡ q.last_known_good

scan_more :
    (c : Config) (all more : List Sample) (good : Option ℕ) (samples extra : List Sample) {n : ℕ}
    → (scan c all good samples).broke_at_concurrent ≡ some n
    → Same (scan c more good (samples ++ extra)) (scan c all good samples)
unfolding scan
scan_more c all more good [] extra h = absurd (ground arith)
scan_more c all more good ((k, m) ∷ samples) extra {n} h = elim (Bool-cases (too_slow c m)) [
  | inl slow ↦ rw slow (record { broke_at = refl; trigger = refl; last = refl })
  | inr quick ↦ elim (Bool-cases (too_faulty c m)) [
    | inl faulty ↦ rw (quick, faulty) (record { broke_at = refl; trigger = refl; last = refl })
    | inr fine ↦
        rw (quick, fine)
          (scan_more c all more (some k) samples extra {n = n} (rw (quick, fine) at h))
  ]
]

-- Once a break point is found, observing another sample does not change the report of it.
pub breaking_point-observe :
    (d : Detector) (concurrent n : ℕ) (metrics : ScenarioMetrics)
    → (breaking_point d).broke_at_concurrent ≡ some n
    → Same (breaking_point (observe d concurrent metrics)) (breaking_point d)
unfolding breaking_point observe
breaking_point-observe d concurrent n metrics h =
    scan_more d.config d.samples (d.samples ++ (concurrent, metrics) ∷ []) none d.samples
      ((concurrent, metrics) ∷ []) h
