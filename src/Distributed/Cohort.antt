-- ===== src/Distributed/Cohort.antt =====
-- The names of a cohort, as a `BTreeSet` lists them (crates/distributed/src).
use Prim.Native.Nat.Ordering.{lt}
use mcp_loadtest.Base.{
  String, List, [], ◌∷◌, ◌≡◌, refl, ap, arith, any, length, suc, str_eq, str_eq_iff,
}
use mcp_loadtest.Base.Order.{str_ord, same_iff}
use mcp_loadtest.Base.Map.{get, keys, Above, IsSorted}
use mcp_loadtest.Base.Sets.{holds}

abbrev FromHead : String → List String → Type 0
FromHead x [] = Unit
FromHead x (y ∷ ys) = str_ord.cmp x y ≡ lt

-- In strictly rising order.
abbrev pub Rising : List String → Type 0
Rising [] = Unit
Rising (x ∷ xs) = FromHead x xs × Rising xs

keys-FromHead : (x : String) (m : List (String × Unit {0})) → Above x m → FromHead x (keys m)
keys-FromHead x [] a = tt
keys-FromHead x ((y, u) ∷ m) a = a

pub keys-Rising : (m : List (String × Unit {0})) → IsSorted m → Rising (keys m)
keys-Rising [] s = tt
keys-Rising ((x, u) ∷ m) s = (keys-FromHead x m s.0, keys-Rising m s.1)

pub keys-holds : (x : String) (m : List (String × Unit {0})) → any (str_eq x) (keys m) ≡ holds x m
unfolding get
keys-holds x [] = refl
keys-holds x ((y, u) ∷ m) = ground (arith, keys-holds x m, same_iff x y, str_eq_iff x y)

pub length-keys : (m : List (String × Unit {0})) → length (keys m) ≡ length m
length-keys [] = refl
length-keys ((x, u) ∷ m) = ap suc (length-keys m)
