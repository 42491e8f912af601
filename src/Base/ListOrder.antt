-- ===== src/Base/ListOrder.antt =====
-- `Ord` of a sequence: by its first elements, then by the rest.
use Prim.Native.Nat.{Ordering}
use Prim.Native.Nat.Ordering.{lt, eq, gt}
use mathlib.Core.Path.{◌≡◌, refl}
use mathlib.Core.List.{List, [], ◌∷◌}
use native.Mathlib.Omega.{arith}
use mcp_loadtest.Base.Order.{Ord}
use mcp_loadtest.Base.Pairs.{and_then}

module _ {ℓ} {A : Type ℓ} ⦃o : Ord A⦄ where
  abbrev pub cmp_list : List A → List A → Ordering
  cmp_list [] [] = eq
  cmp_list [] (y ∷ ys) = lt
  cmp_list (x ∷ xs) [] = gt
  cmp_list (x ∷ xs) (y ∷ ys) = and_then (o.cmp x y) (cmp_list xs ys)

  pub cmp_list_self : (xs : List A) → cmp_list xs xs ≡ eq
  cmp_list_self [] = refl
  cmp_list_self (x ∷ xs) = ground (arith, o.cmp_self x, cmp_list_self xs)

  pub cmp_list-eq : (xs ys : List A) → cmp_list xs ys ≡ eq → xs ≡ ys
  cmp_list-eq [] [] h = refl
  cmp_list-eq [] (y ∷ ys) h = absurd (ground arith)
  cmp_list-eq (x ∷ xs) [] h = absurd (ground arith)
  cmp_list-eq (x ∷ xs) (y ∷ ys) h = ground (arith, o.cmp_eq x y, cmp_list-eq xs ys)

  pub cmp_list_flip : (xs ys : List A) → cmp_list xs ys ≡ gt → cmp_list ys xs ≡ lt
  cmp_list_flip [] [] h = absurd (ground arith)
  cmp_list_flip [] (y ∷ ys) h = absurd (ground arith)
  cmp_list_flip (x ∷ xs) [] h = refl
  cmp_list_flip (x ∷ xs) (y ∷ ys) h =
      ground (arith, o.cmp_flip x y, cmp_list_flip xs ys, o.cmp_eq x y, o.cmp_self x)

  pub cmp_list_trans :
      (xs ys zs : List A) → cmp_list xs ys ≡ lt → cmp_list ys zs ≡ lt → cmp_list xs zs ≡ lt
  cmp_list_trans [] [] zs h k = absurd (ground arith)
  cmp_list_trans (x ∷ xs) [] zs h k = absurd (ground arith)
  cmp_list_trans xs (y ∷ ys) [] h k = absurd (ground arith)
  cmp_list_trans [] (y ∷ ys) (z ∷ zs) h k = refl
  cmp_list_trans (x ∷ xs) (y ∷ ys) (z ∷ zs) h k =
      ground (arith, o.cmp_trans x y z, o.cmp_eq x y, o.cmp_eq y z, cmp_list_trans xs ys zs)

  instance abbrev pub list_ord : Ord (List A)
  list_ord = record {
    cmp = cmp_list;
    cmp_self = cmp_list_self;
    cmp_eq = cmp_list-eq;
    cmp_flip = cmp_list_flip;
    cmp_trans = cmp_list_trans;
  }
