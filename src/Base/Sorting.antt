-- ===== src/Base/Sorting.antt =====
-- `sort_by_key` and `sort`: a stable sort, and that the order of what is sorted plays no part.
use Prim.Native.Nat.{Ordering}
use mathlib.Core.Path.{◌≡◌, refl, ap, ◌∙◌}
use mathlib.Core.Logic.{◌≢◌, inl, inr}
use mathlib.Core.Bool.{Bool, true, false, not}
use mathlib.Core.List.{List, [], ◌∷◌}
use native.Mathlib.Omega.{arith}
use mcp_loadtest.Base.Tests.{if◌then◌else◌, Bool-cases}
use mcp_loadtest.Base.Order.{Ord, cmp_swap}

-- A list in another order, by exchanges of neighbours that satisfy `R`.
pub data Exchanged {ℓ κ} {A : Type ℓ} (R : A → A → Type κ) : List A → List A → Type (ℓ ⊔ κ) where
  same_order : (xs : List A) → Exchanged R xs xs
  swap : (x y : A) (xs : List A) → R x y → Exchanged R (x ∷ y ∷ xs) (y ∷ x ∷ xs)
  deeper : (x : A) (xs ys : List A) → Exchanged R xs ys → Exchanged R (x ∷ xs) (x ∷ ys)
  after : (xs ys zs : List A) → Exchanged R xs ys → Exchanged R ys zs → Exchanged R xs zs

module _ {ℓ κ} {A : Type ℓ} {K : Type κ} ⦃o : Ord K⦄ (key : A → K) where
  unfoldable pub before : A → A → Bool
  before x y = elim (o.cmp (key x) (key y)) [ Ordering.gt ↦ false | _ ↦ true ]

  -- Before the first that is not smaller.
  unfoldable pub place : A → List A → List A
  place x [] = x ∷ []
  place x (y ∷ rest) = if before x y then x ∷ y ∷ rest else y ∷ place x rest

  unfoldable pub sort_by : List A → List A
  sort_by [] = []
  sort_by (x ∷ rest) = place x (sort_by rest)

  abbrev pub Apart : A → A → Type κ
  Apart x y = key x ≢ key y

  one_way : (x y : A) → Apart x y → before y x ≡ not (before x y)
  unfolding before
  one_way x y h = ground (
    arith,
    o.cmp_eq (key x) (key y),
    o.cmp_flip (key x) (key y),
    o.cmp_flip (key y) (key x),
    cmp_swap (key x) (key y),
    cmp_swap (key y) (key x),
    o.cmp_eq (key y) (key x),
  )

  between : (x y z : A) → before x z ≡ true → before y z ≡ false → before x y ≡ true
  unfolding before
  between x y z p q = ground (
    arith,
    o.cmp_flip (key y) (key z),
    o.cmp_trans (key x) (key z) (key y),
    o.cmp_eq (key x) (key z),
  )

  place_comm : (x y : A) (l : List A) → Apart x y → place x (place y l) ≡ place y (place x l)
  unfolding place
  place_comm x y [] h = elim (Bool-cases (before x y)) [
    | inl p ↦ rw (p, one_way x y h, p) refl
    | inr p ↦ rw (p, one_way x y h, p) refl
  ]
  place_comm x y (z ∷ l) h =
      ground (arith, one_way x y h, between x y z, between y x z, place_comm x y l h)

  pub sort_by-Exchanged : {xs ys : List A} → Exchanged Apart xs ys → sort_by xs ≡ sort_by ys
  unfolding sort_by
  sort_by-Exchanged (same_order xs) = refl
  sort_by-Exchanged (swap x y xs h) = place_comm x y (sort_by xs) h
  sort_by-Exchanged (deeper x xs ys e) = ap (place x) (sort_by-Exchanged e)
  sort_by-Exchanged (after xs ys zs e f) = sort_by-Exchanged e ∙ sort_by-Exchanged f
