-- ===== src/Base/Sets.antt =====
-- `BTreeSet`, as a `BTreeMap` to the unit.
use Prim.Native.Nat.{ℕ, suc, ◌+◌, ◌≤◌, ◌<◌}
use mathlib.Core.Path.{◌≡◌, refl}
use mathlib.Core.Logic.{inl, inr}
use mathlib.Core.Bool.{Bool, true, false, ◌||◌}
use mathlib.Core.Option.{none, some}
use mathlib.Core.List.{List, [], ◌∷◌}
use native.Mathlib.Omega.{arith}
use mcp_loadtest.Base.Tests.{Bool-cases}
use mcp_loadtest.Base.Lists.{length}
use mcp_loadtest.Base.Order.{Ord, same, same_iff, nat_ord}
use mcp_loadtest.Base.Map.{get, insert, get-insert, IsSorted, Above, Every, Every-map}

-- `contains`
abbrev pub holds {ℓ κ} : {K : Type ℓ} {V : Type κ} ⦃o : Ord K⦄ → K → List (K × V) → Bool
holds k s = elim (get k s) [ none ↦ false | some _ ↦ true ]

module _ {ℓ κ} {K : Type ℓ} {V : Type κ} ⦃o : Ord K⦄ where
  pub holds-insert :
      (j k : K) (v : V) (m : List (K × V)) → holds j (insert k v m) ≡ (same j k || holds j m)
  holds-insert j k v m = ground (arith, get-insert j k v m)

  -- A key that is not there makes the map longer.
  pub length-insert :
      (k : K) (v : V) (m : List (K × V))
      → holds k m ≡ false
      → length (insert k v m) ≡ suc (length m)
  unfolding get insert
  length-insert k v [] h = refl
  length-insert k v ((j, w) ∷ m) h = ground (arith, length-insert k v m)

module _ {κ} {V : Type κ} where
  -- Rising numbers from above `k`: the last is at least as far above as they are many.
  room :
      (k : ℕ) (m : List (ℕ × V)) (bound : ℕ)
      → Above k m
      → IsSorted m
      → k < bound
      → Every (λ j v. j < bound) m
      → k + length m < bound
  room k [] bound a s b e = omega arith
  room k ((j, v) ∷ m) bound a s b e = ground (arith, room j m bound s.0 s.1 e.0 e.1)

  rising : (k : ℕ) (m : List (ℕ × V)) → Above k m → IsSorted m → Every (λ j v. suc k ≤ j) m
  rising k [] a s = tt
  rising k ((j, v) ∷ m) a s =
      (ground arith, Every-map _ _ m (λ i w h. omega arith) (rising k m (further m s.0) s.1))
    where
      further : (n : List (ℕ × V)) → Above j n → Above k n
      further [] b = tt
      further ((i, w) ∷ n) b = ground arith

  -- As many numbers as there are from `low` up to a bound are all of them.
  pub pigeonhole :
      (low : ℕ) (m : List (ℕ × V)) (i : ℕ)
      → IsSorted m
      → Every (λ j v. low ≤ j) m
      → Every (λ j v. j < low + length m) m
      → low ≤ i
      → i < low + length m
      → holds i m ≡ true
  unfolding get
  pigeonhole low [] i s f b p q = absurd (omega arith)
  pigeonhole low ((j, v) ∷ m) i s f b p q =
      let tight : j ≡ low = ground (arith, room j m (low + length ((j, v) ∷ m)) s.0 s.1 b.0 b.1) in
      elim (Bool-cases (same i j)) [
        | inl e ↦ ground arith
        | inr e ↦
            let rest : holds i m ≡ true =
              pigeonhole (suc low) m i s.1
                (Every-map _ _ m (λ k w h. omega arith) (rising j m s.0 s.1))
                (Every-map _ _ m (λ k w h. omega arith) b.1) (ground (arith, same_iff i j))
                (omega arith) in
            ground (arith, rest)
      ]
