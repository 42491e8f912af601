-- ===== src/Base/Sorted.antt =====
-- What `sort_by` gives: the same elements, in order.
use Prim.Native.Nat.{suc}
use mathlib.Core.Path.{◌≡◌, refl, ap, ◌∙◌}
use mathlib.Core.Logic.{inl, inr}
use mathlib.Core.Bool.{Bool, true, false, ◌||◌}
use mathlib.Core.List.{List, [], ◌∷◌}
use native.Mathlib.Omega.{arith}
use mcp_loadtest.Base.Tests.{Bool-cases}
use mcp_loadtest.Base.Lists.{length, any}
use mcp_loadtest.Base.Order.{Ord}
use mcp_loadtest.Base.Sorting.{before, place, sort_by}

module _ {ℓ κ} {A : Type ℓ} {K : Type κ} ⦃o : Ord K⦄ (key : A → K) where
  length-place : (x : A) (l : List A) → length (place key x l) ≡ suc (length l)
  unfolding place
  length-place x [] = refl
  length-place x (y ∷ rest) = ground (arith, length-place x rest)

  pub length-sort_by : (l : List A) → length (sort_by key l) ≡ length l
  unfolding sort_by
  length-sort_by [] = refl
  length-sort_by (x ∷ rest) = length-place x (sort_by key rest) ∙ ap suc (length-sort_by rest)

  any-place : (p : A → Bool) (x : A) (l : List A) → any p (place key x l) ≡ (p x || any p l)
  unfolding place
  any-place p x [] = refl
  any-place p x (y ∷ rest) = ground (arith, any-place p x rest)

  pub any-sort_by : (p : A → Bool) (l : List A) → any p (sort_by key l) ≡ any p l
  unfolding sort_by
  any-sort_by p [] = refl
  any-sort_by p (x ∷ rest) =
      any-place p x (sort_by key rest) ∙ ap (λ b. p x || b) (any-sort_by p rest)

  abbrev AtMostHead : A → List A → Type 0
  AtMostHead x [] = Unit
  AtMostHead x (y ∷ rest) = before key x y ≡ true

  -- No element stands after a greater one.
  abbrev pub InOrder : List A → Type 0
  InOrder [] = Unit
  InOrder (x ∷ rest) = AtMostHead x rest × InOrder rest

  total : (x y : A) → before key x y ≡ false → before key y x ≡ true
  unfolding before
  total x y h = ground (arith, o.cmp_flip (key x) (key y))

  AtMostHead-place :
      (y x : A) (l : List A) → before key y x ≡ true → AtMostHead y l → AtMostHead y (place key x l)
  unfolding place
  AtMostHead-place y x [] h a = h
  AtMostHead-place y x (z ∷ rest) h a = elim (Bool-cases (before key x z)) [
    | inl p ↦ rw p h
    | inr p ↦ rw p a
  ]

  place-InOrder : (x : A) (l : List A) → InOrder l → InOrder (place key x l)
  unfolding place
  place-InOrder x [] s = (tt, tt)
  place-InOrder x (y ∷ rest) s = elim (Bool-cases (before key x y)) [
    | inl p ↦ rw p (p, s)
    | inr p ↦ rw p (AtMostHead-place y x rest (total x y p) s.0, place-InOrder x rest s.1)
  ]

  pub sort_by-InOrder : (l : List A) → InOrder (sort_by key l)
  unfolding sort_by
  sort_by-InOrder [] = tt
  sort_by-InOrder (x ∷ rest) = place-InOrder x (sort_by key rest) (sort_by-InOrder rest)
