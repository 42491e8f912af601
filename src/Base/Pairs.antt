-- ===== src/Base/Pairs.antt =====
-- `Ord` of a pair: by the first, then by the second.
use Prim.Native.Nat.{Ordering}
use Prim.Native.Nat.Ordering.{lt, eq, gt}
use mathlib.Core.Path.{◌≡◌}
use native.Mathlib.Omega.{arith}
use mcp_loadtest.Base.Order.{Ord}

-- `then_with`
abbrev pub and_then : Ordering → Ordering → Ordering
and_then Ordering.eq next = next
and_then first next = first

module _ {ℓ κ} {A : Type ℓ} {B : Type κ} ⦃o : Ord A⦄ ⦃u : Ord B⦄ where
  abbrev pub cmp_pair : A × B → A × B → Ordering
  cmp_pair (a, b) (c, d) = and_then (o.cmp a c) (u.cmp b d)

  pub cmp_pair_self : (p : A × B) → cmp_pair p p ≡ eq
  cmp_pair_self (a, b) = ground (arith, o.cmp_self a, u.cmp_self b)

  pub cmp_pair-eq : (p q : A × B) → cmp_pair p q ≡ eq → p ≡ q
  cmp_pair-eq (a, b) (c, d) h = ground (arith, o.cmp_eq a c, u.cmp_eq b d)

  pub cmp_pair_flip : (p q : A × B) → cmp_pair p q ≡ gt → cmp_pair q p ≡ lt
  cmp_pair_flip (a, b) (c, d) h =
      ground (arith, o.cmp_flip a c, u.cmp_flip b d, o.cmp_eq a c, o.cmp_self a)

  pub cmp_pair_trans : (p q r : A × B) → cmp_pair p q ≡ lt → cmp_pair q r ≡ lt → cmp_pair p r ≡ lt
  cmp_pair_trans (a, b) (c, d) (e, f) h k =
      ground (arith, o.cmp_trans a c e, u.cmp_trans b d f, o.cmp_eq a c, o.cmp_eq c e)

  instance abbrev pub pair_ord : Ord (A × B)
  pair_ord = record {
    cmp = cmp_pair;
    cmp_self = cmp_pair_self;
    cmp_eq = cmp_pair-eq;
    cmp_flip = cmp_pair_flip;
    cmp_trans = cmp_pair_trans;
  }
