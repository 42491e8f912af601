-- ===== src/Engine/RaceDetector/Grouped.antt =====
-- What a report of `analyze` (crates/engine/src/race_detector.rs) says of the responses.
use mcp_loadtest.Base.{
  ℕ, suc, ◌+◌, ◌≤◌, String, true, false, List, [], ◌∷◌, Option, none, some, ◌≡◌, ◌≢◌, refl, ap, sym,
  ◌∙◌, arith, All, length, if◌then◌else◌, ◌==◌, str_eq, str_eq_iff, Bool-cases, inl, inr,
  Option-cases,
}
use mcp_loadtest.Base.Order.{str_ord, same_iff}
use mcp_loadtest.Base.Map.{
  get, insert, IsSorted, get-Above, Every, Every-insert, Every-get, Every-of_get,
}
use mcp_loadtest.Base.Json.{Value}
use mcp_loadtest.Engine.RaceDetector.{
  SerdeJson, DivergenceReport, canonicalize, group, seen, place, before, sorted, turned, analyze,
}
use mcp_loadtest.Engine.RaceDetector.Groups.{
  occurrences, group_count, group-IsSorted, analyze-diverged,
}

-- How many samples have this form.
abbrev pub times : String → List (ℕ × String) → ℕ
times form [] = 0
times form ((n, s) ∷ rest) = (if str_eq s form then 1 else 0) + times form rest

pub record Grouped (lib : SerdeJson) (vs : List Value) (r : DivergenceReport) : Type 0 where
  pub exact : All (λ x. (x.0 ≡ occurrences lib x.1 vs) × (1 ≤ x.0)) r.samples
  pub once :
      (form : String) → times form r.samples ≡ (if occurrences lib form vs == 0 then 0 else 1)
  pub unique : r.unique_responses ≡ length r.samples
  pub total : r.total_responses ≡ length vs
  pub agreed : r.diverged ≡ false → (form : String) × All (λ v. canonicalize lib v ≡ form) vs
  pub differ :
      r.diverged ≡ true
      → (f : String) × (g : String) × (f ≢ g)
        × (1 ≤ occurrences lib f vs)
        × (1 ≤ occurrences lib g vs)

times-place :
    (form : String) (x : ℕ × String) (l : List (ℕ × String))
    → times form (place x l) ≡ (if str_eq x.1 form then 1 else 0) + times form l
unfolding place
times-place form x [] = refl
times-place form x (y ∷ l) = ground (arith, times-place form x l)

times-sorted : (form : String) (l : List (ℕ × String)) → times form (sorted l) ≡ times form l
unfolding sorted
times-sorted form [] = refl
times-sorted form (x ∷ l) = ground (arith, times-place form x (sorted l), times-sorted form l)

-- Once, if it is there.
abbrev found_once : Option ℕ → ℕ
found_once none = 0
found_once (some n) = 1

times-turned :
    (form : String) (m : List (String × ℕ))
    → IsSorted m
    → times form (turned m) ≡ found_once (get form m)
unfolding get
times-turned form [] s = refl
times-turned form ((k, n) ∷ m) s = elim (Bool-cases (str_eq k form)) [
  | inl own ↦
      let key : k ≡ form = (str_eq_iff k form).0 own in
      let gone : get form m ≡ none = ap (λ i. get i m) (sym key) ∙ get-Above k m s.1 s.0 in
      ground (arith, own, gone, times-turned form m s.1, same_iff form k, key)
  | inr other ↦ ground (arith, other, times-turned form m s.1, same_iff form k, str_eq_iff k form)
]

group-positive :
    (lib : SerdeJson) (vs : List Value) (groups : List (String × ℕ))
    → Every (λ form n. 1 ≤ n) groups
    → Every (λ form n. 1 ≤ n) (group lib vs groups)
unfolding group
group-positive lib [] groups e = e
group-positive lib (v ∷ vs) groups e =
    let c = canonicalize lib v in
    let n = suc (seen (get c groups)) in
    group-positive lib vs (insert c n groups)
      (Every-insert (λ form k. 1 ≤ k) c n groups e (omega arith))

All-place {ℓ} :
    (P : ℕ × String → Type ℓ) (x : ℕ × String) (l : List (ℕ × String))
    → P x
    → All P l
    → All P (place x l)
unfolding place
All-place P x [] p e = (p, tt)
All-place P x (y ∷ l) p e = elim (Bool-cases (before x y)) [
  | inl h ↦ rw h (p, e)
  | inr h ↦ rw h (e.0, All-place P x l p e.1)
]

All-sorted {ℓ} : (P : ℕ × String → Type ℓ) (l : List (ℕ × String)) → All P l → All P (sorted l)
unfolding sorted
All-sorted P [] e = tt
All-sorted P (x ∷ l) e = All-place P x (sorted l) e.0 (All-sorted P l e.1)

All-turned {ℓ} :
    (P : ℕ × String → Type ℓ) (m : List (String × ℕ))
    → Every (λ form n. P (n, form)) m
    → All P (turned m)
All-turned P [] e = tt
All-turned P ((form, n) ∷ m) e = (e.0, All-turned P m e.1)

-- Two samples have two forms, if none is there twice.
two_forms :
    (lib : SerdeJson) (vs : List Value) (samples : List (ℕ × String))
    → 2 ≤ length samples
    → ((form : String) → times form samples ≤ 1)
    → All (λ x. (x.0 ≡ occurrences lib x.1 vs) × (1 ≤ x.0)) samples
    → (f : String) × (g : String) × (f ≢ g)
      × (1 ≤ occurrences lib f vs)
      × (1 ≤ occurrences lib g vs)
two_forms lib vs [] two once exact = absurd (omega arith)
two_forms lib vs (x ∷ []) two once exact = absurd (omega arith)
two_forms lib vs ((n, f) ∷ (k, g) ∷ rest) two once exact = (
  f,
  g,
  λ same. absurd (ground (arith, once f, str_eq_iff f f, str_eq_iff g f, same)),
  ground (arith, exact.0),
  ground (arith, exact.1.0),
)

module _ (lib : SerdeJson) (vs : List Value) where
  abbrev groups : List (String × ℕ)
  groups = group lib vs []

  groups-IsSorted : IsSorted groups
  groups-IsSorted = group-IsSorted lib vs [] tt

  groups-occurrences : (form : String) → seen (get form groups) ≡ occurrences lib form vs
  unfolding get
  groups-occurrences form = ground (arith, group_count lib form vs [])

  groups_exact : Every (λ form n. (n ≡ occurrences lib form vs) × (1 ≤ n)) groups
  groups_exact =
      Every-of_get (λ form n. (n ≡ occurrences lib form vs) × (1 ≤ n)) groups groups-IsSorted
        λ form n h. (
          ground (arith, h, groups-occurrences form),
          Every-get (λ f k. 1 ≤ k) form n groups (group-positive lib vs [] tt) h,
        )

  groups_once :
      (form : String)
      → times form (sorted (turned groups)) ≡ (if occurrences lib form vs == 0 then 0 else 1)
  groups_once form = elim (Option-cases (get form groups)) [
    | inl h ↦ ground (
      arith,
      times-sorted form (turned groups),
      times-turned form groups groups-IsSorted,
      h,
      groups-occurrences form,
    )
    | inr (n, h) ↦ ground (
      arith,
      times-sorted form (turned groups),
      times-turned form groups groups-IsSorted,
      h,
      groups-occurrences form,
      Every-get (λ f k. 1 ≤ k) form n groups (group-positive lib vs [] tt) h,
    )
  ]

  groups_All : All (λ x. (x.0 ≡ occurrences lib x.1 vs) × (1 ≤ x.0)) (sorted (turned groups))
  groups_All =
      All-sorted (λ x. (x.0 ≡ occurrences lib x.1 vs) × (1 ≤ x.0)) (turned groups)
        (All-turned (λ x. (x.0 ≡ occurrences lib x.1 vs) × (1 ≤ x.0)) groups groups_exact)

-- Each sample of the report has a canonical form and the number of responses that have it, one at least, and
-- each form that some response has stands in one sample, and no other form in any. The report counts the
-- samples as unique and the responses in all. If no divergence is reported all responses have one form, and if
-- one is reported there are two that have different forms.
pub analyze-Grouped : (lib : SerdeJson) (vs : List Value) → Grouped lib vs (analyze lib vs)
unfolding analyze
analyze-Grouped lib [] = record {
  exact = tt;
  once = λ form. refl;
  unique = refl;
  total = refl;
  agreed = analyze-diverged lib [];
  differ = λ h. absurd (ground arith);
}
analyze-Grouped lib (v ∷ rest) =
    let vs = v ∷ rest in
    record {
      exact = groups_All lib vs;
      once = groups_once lib vs;
      unique = refl;
      total = refl;
      agreed = analyze-diverged lib vs;
      differ = λ h.
          two_forms lib vs (sorted (turned (group lib vs []))) (ground arith)
            (λ form. ground (arith, groups_once lib vs form)) (groups_All lib vs);
    }
