-- ===== src/Base/Map/Entries.antt =====
-- A `BTreeMap` as a list of entries in rising order of their keys: its operations, and when two are equal.
use Prim.Native.Nat.Ordering.{lt}
use Prim.Native.Nat.{Ordering}
use mathlib.Core.Path.{◌≡◌, refl}
use mathlib.Core.Logic.{◌≢◌, inl, inr}
use mathlib.Core.Option
use mathlib.Core.Option.{Option, none, some}
use mathlib.Core.List.{List, [], ◌∷◌}
use native.Mathlib.Omega.{arith}
use mcp_loadtest.Base.Tests.{if◌then◌else◌, Bool-cases}
use mcp_loadtest.Base.Order.{Ord, same, same_iff, Ordering-cases}

module _ {ℓ κ} {K : Type ℓ} {V : Type κ} where
  abbrev pub keys : List (K × V) → List K
  keys [] = []
  keys ((k, v) ∷ m) = k ∷ keys m

  abbrev pub values : List (K × V) → List V
  values [] = []
  values ((k, v) ∷ m) = v ∷ values m

  abbrev pub map_values : (V → V) → List (K × V) → List (K × V)
  map_values f [] = []
  map_values f ((k, v) ∷ m) = (k, f v) ∷ map_values f m

  -- Every entry satisfies `P`.
  abbrev pub Every {μ} : (K → V → Type μ) → List (K × V) → Type μ
  Every P [] = Unit
  Every P ((k, v) ∷ m) = P k v × Every P m

module _ {ℓ κ} {K : Type ℓ} {V : Type κ} (P Q : K → V → Type 0) where
  pub Every-map : (m : List (K × V)) → ((k : K) (v : V) → P k v → Q k v) → Every P m → Every Q m
  Every-map [] f e = tt
  Every-map ((k, v) ∷ m) f e = (f k v e.0, Every-map m f e.1)

  pub Every-map_values :
      (g : V → V) (m : List (K × V))
      → ((k : K) (v : V) → P k v → Q k (g v))
      → Every P m
      → Every Q (map_values g m)
  Every-map_values g [] f e = tt
  Every-map_values g ((k, v) ∷ m) f e = (f k v e.0, Every-map_values g m f e.1)

module _ {ℓ κ} {K : Type ℓ} {V : Type κ} ⦃o : Ord K⦄ where
  unfoldable pub get : K → List (K × V) → Option V
  get k [] = none
  get k ((j, v) ∷ m) = if same k j then some v else get k m

  unfoldable pub insert : K → V → List (K × V) → List (K × V)
  insert k v [] = (k, v) ∷ []
  insert k v ((j, w) ∷ m) = elim (o.cmp k j) [
    | Ordering.lt ↦ (k, v) ∷ (j, w) ∷ m
    | Ordering.eq ↦ (k, v) ∷ m
    | Ordering.gt ↦ (j, w) ∷ insert k v m
  ]

  -- A write through `get_mut`: nothing happens at a key that is not there.
  unfoldable pub update : K → V → List (K × V) → List (K × V)
  update k v [] = []
  update k v ((j, w) ∷ m) = if same k j then (j, v) ∷ m else (j, w) ∷ update k v m

  -- All keys lie above `k`, of which the first is the least.
  abbrev pub Above : K → List (K × V) → Type 0
  Above k [] = Unit
  Above k ((j, v) ∷ m) = o.cmp k j ≡ lt

  abbrev pub IsSorted : List (K × V) → Type 0
  IsSorted [] = Unit
  IsSorted ((k, v) ∷ m) = Above k m × IsSorted m

  pub get-map_values :
      (f : V → V) (k : K) (m : List (K × V)) → get k (map_values f m) ≡ Option.map f (get k m)
  unfolding get
  get-map_values f k [] = refl
  get-map_values f k ((j, v) ∷ m) = ground (arith, get-map_values f k m)

  Above-map_values : (f : V → V) (k : K) (m : List (K × V)) → Above k m → Above k (map_values f m)
  Above-map_values f k [] a = tt
  Above-map_values f k ((j, v) ∷ m) a = a

  pub map_values-IsSorted : (f : V → V) (m : List (K × V)) → IsSorted m → IsSorted (map_values f m)
  map_values-IsSorted f [] s = tt
  map_values-IsSorted f ((k, v) ∷ m) s = (Above-map_values f k m s.0, map_values-IsSorted f m s.1)

  -- Writing back what is there changes nothing.
  pub update_self : (k : K) (v : V) (m : List (K × V)) → get k m ≡ some v → update k v m ≡ m
  unfolding get update
  update_self k v [] h = refl
  update_self k v ((j, w) ∷ m) h = ground (arith, update_self k v m)

  pub get-insert :
      (j k : K) (v : V) (m : List (K × V))
      → get j (insert k v m) ≡ (if same j k then some v else get j m)
  unfolding get insert
  get-insert j k v [] = refl
  get-insert j k v ((i, w) ∷ m) =
      ground (arith, same_iff j k, same_iff j i, o.cmp_eq k i, o.cmp_self k, get-insert j k v m)

  pub get-update :
      (j k : K) (v : V) (m : List (K × V))
      → get k m ≢ none
      → get j (update k v m) ≡ (if same j k then some v else get j m)
  unfolding get update
  get-update j k v [] h = absurd (h refl)
  get-update j k v ((i, w) ∷ m) h =
      ground (arith, same_iff j k, same_iff j i, same_iff k i, get-update j k v m)

  pub keys-update : (k : K) (v : V) (m : List (K × V)) → keys (update k v m) ≡ keys m
  unfolding update
  keys-update k v [] = refl
  keys-update k v ((i, w) ∷ m) = ground (arith, keys-update k v m)

  Above-update : (i k : K) (v : V) (m : List (K × V)) → Above i m → Above i (update k v m)
  unfolding update
  Above-update i k v [] h = tt
  Above-update i k v ((j, w) ∷ m) h = ground arith

  pub update-IsSorted : (k : K) (v : V) (m : List (K × V)) → IsSorted m → IsSorted (update k v m)
  unfolding update
  update-IsSorted k v [] s = tt
  update-IsSorted k v ((i, w) ∷ m) s = elim (Bool-cases (same k i)) [
    | inl e ↦ rw e s
    | inr e ↦ rw e (Above-update i k v m s.0, update-IsSorted k v m s.1)
  ]

  Above-insert :
      (i k : K) (v : V) (m : List (K × V)) → o.cmp i k ≡ lt → Above i m → Above i (insert k v m)
  unfolding insert
  Above-insert i k v [] p h = p
  Above-insert i k v ((j, w) ∷ m) p h = ground arith

  Above-trans : (i j : K) (m : List (K × V)) → o.cmp i j ≡ lt → Above j m → Above i m
  Above-trans i j [] p a = tt
  Above-trans i j ((k, v) ∷ m) p a = o.cmp_trans i j k p a

  pub insert-IsSorted : (k : K) (v : V) (m : List (K × V)) → IsSorted m → IsSorted (insert k v m)
  unfolding insert
  insert-IsSorted k v [] s = (tt, tt)
  insert-IsSorted k v ((i, w) ∷ m) s = elim (Ordering-cases (o.cmp k i)) [
    | inl e ↦ rw (e, insert) (e, s)
    | inr (inl e) ↦ rw (e, insert) (rw (o.cmp_eq k i e) s.0, s.1)
    | inr (inr e) ↦
        rw (e, insert) (Above-insert i k v m (o.cmp_flip k i e) s.0, insert-IsSorted k v m s.1)
  ]

  pub get-Above : (k : K) (m : List (K × V)) → IsSorted m → Above k m → get k m ≡ none
  unfolding get
  get-Above k [] s a = refl
  get-Above k ((j, v) ∷ m) s a = ground (arith, get-Above k m s.1 (Above-trans k j m a s.0))

  pub get-nil : (j : K) → ◌≡◌ {A = Option V} (get j []) none
  unfolding get
  get-nil j = refl

  pub get-head : (j : K) (v : V) (m : List (K × V)) → get j ((j, v) ∷ m) ≡ some v
  unfolding get
  get-head j v m = ground (arith, o.cmp_self j)

  pub get-tail : (j k : K) (v : V) (m : List (K × V)) → j ≢ k → get j ((k, v) ∷ m) ≡ get j m
  unfolding get
  get-tail j k v m h = ground (arith, same_iff j k)

  first_keys :
      (i j : K) (w x : V) (m n : List (K × V))
      → IsSorted ((i, w) ∷ m)
      → IsSorted ((j, x) ∷ n)
      → ((k : K) → get k ((i, w) ∷ m) ≡ get k ((j, x) ∷ n))
      → (i ≡ j) × (w ≡ x)
  first_keys i j w x m n s t h = ground (
    arith,
    h i,
    h j,
    get-head i w m,
    get-head j x n,
    o.cmp_eq i j,
    o.cmp_flip i j,
    get-Above i ((j, x) ∷ n) t,
    get-Above j ((i, w) ∷ m) s,
  )

  -- A sorted list is determined by what it holds.
  pub ext : (m n : List (K × V)) → IsSorted m → IsSorted n → ((k : K) → get k m ≡ get k n) → m ≡ n
  ext [] [] s t h = refl
  ext [] ((j, x) ∷ n) s t h = absurd (ground (arith, h j, get-head j x n, get-nil j))
  ext ((i, w) ∷ m) [] s t h = absurd (ground (arith, h i, get-head i w m, get-nil i))
  ext ((i, w) ∷ m) ((j, x) ∷ n) s t h =
      let (same_key, same_value) = first_keys i j w x m n s t h in
      cc (same_key, same_value, ext m n s.1 t.1 rest)
    where
      rest : (k : K) → get k m ≡ get k n
      rest k = ground (
        arith,
        h k,
        first_keys i j w x m n s t h,
        get-tail k i w m,
        get-tail k j x n,
        get-Above i m s.1 s.0,
        get-Above j n t.1 t.0,
        same_iff k i,
      )
