-- ===== src/Base/Map.antt =====
-- `BTreeMap`: the names of the child, and what holds of every entry.
mod Entries
unfoldable pub use Entries.*
use Prim.Native.Nat.Ordering.{lt}
use Prim.Native.Nat.{Ordering}
use mathlib.Core.Path.{◌≡◌, refl, ◌∙◌, ap}
use mathlib.Core.Logic.{◌≢◌, inl, inr}
use mathlib.Core.Option
use mathlib.Core.Option.{Option, none, some}
use mathlib.Core.List.{List, [], ◌∷◌}
use native.Mathlib.Omega.{arith}
use mcp_loadtest.Base.Tests.{if◌then◌else◌, Bool-cases}
use mcp_loadtest.Base.Order.{Ord, same, same_iff, Ordering-cases}

module _ {ℓ κ} {K : Type ℓ} {V : Type κ} ⦃o : Ord K⦄ where
  -- What is found in the rest of a sorted list is found in the whole.
  pub get-rest :
      (k j : K) (v : V) (m : List (K × V)) {w : V}
      → IsSorted ((k, v) ∷ m)
      → get j m ≡ some w
      → get j ((k, v) ∷ m) ≡ some w
  get-rest k j v m s h =
      get-tail j k v m (λ e. ground (arith, ap (λ i. get i m) e, get-Above k m s.1 s.0)) ∙ h

module _ {ℓ κ} {K : Type ℓ} {V : Type κ} ⦃o : Ord K⦄ (P : K → V → Type 0) where
  pub Every-update : (k : K) (v : V) (m : List (K × V)) → Every P m → P k v → Every P (update k v m)
  unfolding update
  Every-update k v [] e p = tt
  Every-update k v ((i, w) ∷ m) e p = elim (Bool-cases (same k i)) [
    | inl h ↦ rw h (rw (← (same_iff k i).0 h) p, e.1)
    | inr h ↦ rw h (e.0, Every-update k v m e.1 p)
  ]

  pub Every-get : (k : K) (v : V) (m : List (K × V)) → Every P m → get k m ≡ some v → P k v
  unfolding get
  Every-get k v [] e h = cc
  Every-get k v ((i, w) ∷ m) e h = elim (Bool-cases (same k i)) [
    | inl t ↦ ground (arith, (same_iff k i).0 t)
    | inr t ↦ Every-get k v m e.1 (rw (t, get) at h)
  ]

  pub Every-insert : (k : K) (v : V) (m : List (K × V)) → Every P m → P k v → Every P (insert k v m)
  unfolding insert
  Every-insert k v [] e p = (p, tt)
  Every-insert k v ((i, w) ∷ m) e p = elim (Ordering-cases (o.cmp k i)) [
    | inl h ↦ rw (h, insert) (p, e)
    | inr (inl h) ↦ rw (h, insert) (p, e.1)
    | inr (inr h) ↦ rw (h, insert) (e.0, Every-insert k v m e.1 p)
  ]

  -- What holds of every value that is found holds of every entry, as no key stands twice.
  pub Every-of_get :
      (m : List (K × V)) → IsSorted m → ((k : K) (v : V) → get k m ≡ some v → P k v) → Every P m
  Every-of_get [] s f = tt
  Every-of_get ((k, v) ∷ m) s f =
      (f k v (get-head k v m), Every-of_get m s.1 λ j w h. f j w (get-rest k j v m s h))
