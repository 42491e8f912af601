-- ===== src/Engine/RaceDetector/Groups.antt =====
-- The groups of `analyze` (crates/engine/src/race_detector.rs).
use mcp_loadtest.Base.{
  ℕ, suc, ◌+◌, ◌≤◌, String, false, List, [], ◌∷◌, none, ◌≡◌, refl, ap, sym, ◌∙◌, arith, All, length,
  if◌then◌else◌, str_eq, str_eq_iff, Bool-cases, inl, inr,
}
use mcp_loadtest.Base.Order.{str_ord, same_iff}
use mcp_loadtest.Base.Map.{get, insert, get-insert, IsSorted, insert-IsSorted, get-Above}
use mcp_loadtest.Base.Json.{Value}
use mcp_loadtest.Engine.RaceDetector.{
  SerdeJson, canonicalize, group, seen, place, sorted, turned, analyze,
}

-- How many of the responses have this canonical form.
abbrev pub occurrences : SerdeJson → String → List Value → ℕ
occurrences lib form [] = 0
occurrences lib form (v ∷ rest) =
    (if str_eq (canonicalize lib v) form then 1 else 0) + occurrences lib form rest

pub group_count :
    (lib : SerdeJson) (form : String) (vs : List Value) (groups : List (String × ℕ))
    → seen (get form (group lib vs groups)) ≡ seen (get form groups) + occurrences lib form vs
unfolding group
group_count lib form [] groups = ground arith
group_count lib form (v ∷ vs) groups =
    let c = canonicalize lib v in
    ground (
      arith,
      group_count lib form vs (insert c (suc (seen (get c groups))) groups),
      get-insert form c (suc (seen (get c groups))) groups,
      same_iff form c,
      str_eq_iff c form,
    )

-- The count of a form among the samples.
abbrev pub sample_count : String → List (ℕ × String) → ℕ
sample_count form [] = 0
sample_count form ((n, s) ∷ rest) = (if str_eq s form then n else 0) + sample_count form rest

place_count :
    (form : String) (x : ℕ × String) (l : List (ℕ × String))
    → sample_count form (place x l) ≡ (if str_eq x.1 form then x.0 else 0) + sample_count form l
unfolding place
place_count form x [] = refl
place_count form x (y ∷ l) = ground (arith, place_count form x l)

sorted_count :
    (form : String) (l : List (ℕ × String)) → sample_count form (sorted l) ≡ sample_count form l
unfolding sorted
sorted_count form [] = refl
sorted_count form (x ∷ l) = ground (arith, place_count form x (sorted l), sorted_count form l)

pub group-IsSorted :
    (lib : SerdeJson) (vs : List Value) (groups : List (String × ℕ))
    → IsSorted groups
    → IsSorted (group lib vs groups)
unfolding group
group-IsSorted lib [] groups s = s
group-IsSorted lib (v ∷ vs) groups s =
    let c = canonicalize lib v in
    let more = insert c (suc (seen (get c groups))) groups in
    group-IsSorted lib vs more (insert-IsSorted c (suc (seen (get c groups))) groups s)

turned_count :
    (form : String) (m : List (String × ℕ))
    → IsSorted m
    → sample_count form (turned m) ≡ seen (get form m)
unfolding get
turned_count form [] s = refl
turned_count form ((k, n) ∷ m) s = elim (Bool-cases (str_eq k form)) [
  | inl own ↦
      let key : k ≡ form = (str_eq_iff k form).0 own in
      let gone : get form m ≡ none = ap (λ i. get i m) (sym key) ∙ get-Above k m s.1 s.0 in
      ground (arith, own, gone, turned_count form m s.1, same_iff form k, key)
  | inr other ↦ ground (arith, other, turned_count form m s.1, same_iff form k, str_eq_iff k form)
]

-- Each canonical form stands in the samples with the number of responses that have it.
pub analyze-occurrences :
    (lib : SerdeJson) (vs : List Value) (form : String)
    → sample_count form (analyze lib vs).samples ≡ occurrences lib form vs
unfolding analyze get
analyze-occurrences lib [] form = refl
analyze-occurrences lib (v ∷ vs) form =
    let groups = group lib (v ∷ vs) [] in
    ground (
      arith,
      sorted_count form (turned groups),
      turned_count form groups (group-IsSorted lib (v ∷ vs) [] tt),
      group_count lib form (v ∷ vs) [],
    )

agree-All :
    (lib : SerdeJson) (n : ℕ) (form : String) (vs : List Value)
    → ((f : String) → occurrences lib f vs ≤ sample_count f ((n, form) ∷ []))
    → All (λ v. canonicalize lib v ≡ form) vs
agree-All lib n form [] h = tt
agree-All lib n form (v ∷ vs) h = (
  ground (
    arith,
    h (canonicalize lib v),
    str_eq_iff form (canonicalize lib v),
    str_eq_iff (canonicalize lib v) (canonicalize lib v),
  ),
  agree-All lib n form vs λ f. ground (arith, h f),
)

agree :
    (lib : SerdeJson) (samples : List (ℕ × String)) (vs : List Value)
    → length samples ≤ 1
    → ((f : String) → sample_count f samples ≡ occurrences lib f vs)
    → (form : String) × All (λ v. canonicalize lib v ≡ form) vs
agree lib [] [] small h = ("", tt)
agree lib [] (v ∷ vs) small h =
    absurd
      (ground (arith, h (canonicalize lib v), str_eq_iff (canonicalize lib v) (canonicalize lib v)))
agree lib ((n, s) ∷ []) vs small h = (s, agree-All lib n s vs λ f. ground (arith, h f))
agree lib (x ∷ y ∷ rest) vs small h = absurd (omega arith)

-- If no divergence is reported, all responses have one canonical form.
pub analyze-diverged :
    (lib : SerdeJson) (vs : List Value)
    → (analyze lib vs).diverged ≡ false
    → (form : String) × All (λ v. canonicalize lib v ≡ form) vs
unfolding analyze
analyze-diverged lib [] h = ("", tt)
analyze-diverged lib (v ∷ vs) h =
    agree lib (analyze lib (v ∷ vs)).samples (v ∷ vs) (ground arith)
      λ f. analyze-occurrences lib (v ∷ vs) f
