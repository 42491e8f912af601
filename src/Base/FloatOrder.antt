-- ===== src/Base/FloatOrder.antt =====
-- `f64::total_cmp`, of doubles whose NaN is positive: it is above all others, and -0 is below 0.
use Prim.Native.Nat.{compare, Ordering}
use Prim.Native.Nat.Ordering.{lt, eq, gt}
use mathlib.Core.Path.{◌≡◌}
use mathlib.Core.Bool.{true, false}
use native.Mathlib.Omega.{arith}
use mcp_loadtest.Base.Order.{Ord}
use mcp_loadtest.Base.Float.{F64, nan, infinite, finite}

abbrev pub total_cmp : F64 → F64 → Ordering
total_cmp nan nan = eq
total_cmp nan (infinite t) = gt
total_cmp nan (finite t n) = gt
total_cmp (infinite s) nan = lt
total_cmp (infinite true) (infinite true) = eq
total_cmp (infinite true) (infinite false) = lt
total_cmp (infinite false) (infinite true) = gt
total_cmp (infinite false) (infinite false) = eq
total_cmp (infinite true) (finite t n) = lt
total_cmp (infinite false) (finite t n) = gt
total_cmp (finite s m) nan = lt
total_cmp (finite s m) (infinite true) = gt
total_cmp (finite s m) (infinite false) = lt
total_cmp (finite true m) (finite true n) = compare n m
total_cmp (finite true m) (finite false n) = lt
total_cmp (finite false m) (finite true n) = gt
total_cmp (finite false m) (finite false n) = compare m n

pub total_cmp_self : (x : F64) → total_cmp x x ≡ eq
total_cmp_self x = ground arith

pub total_cmp-eq : (x y : F64) → total_cmp x y ≡ eq → x ≡ y
total_cmp-eq x y h = ground arith

pub total_cmp_flip : (x y : F64) → total_cmp x y ≡ gt → total_cmp y x ≡ lt
total_cmp_flip x y h = ground arith

pub total_cmp_trans : (x y z : F64) → total_cmp x y ≡ lt → total_cmp y z ≡ lt → total_cmp x z ≡ lt
total_cmp_trans x y z h k = ground arith

instance abbrev pub float_ord : Ord F64
float_ord = record {
  cmp = total_cmp;
  cmp_self = total_cmp_self;
  cmp_eq = total_cmp-eq;
  cmp_flip = total_cmp_flip;
  cmp_trans = total_cmp_trans;
}
