-- ===== src/Base/Order.antt =====
-- `Ord`, the total order that a key of a `BTreeMap` or `BTreeSet` has, with instances for numbers
-- and for texts (by code points, which is the order of their UTF-8 bytes).
use Prim.Native.Nat.{ℕ, compare, Ordering}
use Prim.Native.Nat.Ordering.{lt, eq, gt}
use Prim.Native.String.compare as clauses
use Prim.Native.String.{String, compare as compare_text}
use mathlib.Core.Path.{◌≡◌, refl}
use text.Mathlib.TextEquality.{path_by_compare}
use text.Mathlib.TextPositions.{compare_refl}
use mathlib.Core.Bool.{Bool, true, false}
use mathlib.Core.Logic.{◌↔◌, ◌⊎◌, inl, inr}
use native.Mathlib.Omega.{arith}

pub record Ord {ℓ} (K : Type ℓ) : Type ℓ where
  pub cmp : K → K → Ordering
  pub cmp_self : (a : K) → cmp a a ≡ eq
  pub cmp_eq : (a b : K) → cmp a b ≡ eq → a ≡ b
  pub cmp_flip : (a b : K) → cmp a b ≡ gt → cmp b a ≡ lt
  pub cmp_trans : (a b c : K) → cmp a b ≡ lt → cmp b c ≡ lt → cmp a c ≡ lt

pub compare_ℕ_self : (a : ℕ) → compare a a ≡ eq
compare_ℕ_self a = ground arith

pub compare_ℕ_eq : (a b : ℕ) → compare a b ≡ eq → a ≡ b
compare_ℕ_eq a b h = ground arith

pub compare_ℕ_flip : (a b : ℕ) → compare a b ≡ gt → compare b a ≡ lt
compare_ℕ_flip a b h = ground arith

pub compare_ℕ_trans : (a b c : ℕ) → compare a b ≡ lt → compare b c ≡ lt → compare a c ≡ lt
compare_ℕ_trans a b c p q = ground arith

instance abbrev pub nat_ord : Ord ℕ
nat_ord = record {
  cmp = compare;
  cmp_self = compare_ℕ_self;
  cmp_eq = compare_ℕ_eq;
  cmp_flip = compare_ℕ_flip;
  cmp_trans = compare_ℕ_trans;
}

pub str_flip : (s t : String) → compare_text s t ≡ gt → compare_text t s ≡ lt
str_flip String.[] String.[] h = ground (arith, compare_refl "")
str_flip String.[] (String.◌∷◌ d t) h = ground (arith, clauses.nil-cons d t)
str_flip (String.◌∷◌ c s) String.[] h = clauses.nil-cons c s
str_flip (String.◌∷◌ c s) (String.◌∷◌ d t) h =
    ground (arith, clauses.cons-cons c d s t, clauses.cons-cons d c t s, str_flip s t)

pub str_trans :
    (s t u : String) → compare_text s t ≡ lt → compare_text t u ≡ lt → compare_text s u ≡ lt
str_trans String.[] String.[] String.[] h k = h
str_trans String.[] (String.◌∷◌ d t) String.[] h k = ground (arith, clauses.cons-nil d t)
str_trans String.[] t (String.◌∷◌ e u) h k = clauses.nil-cons e u
str_trans (String.◌∷◌ c s) String.[] u h k = ground (arith, clauses.cons-nil c s)
str_trans (String.◌∷◌ c s) (String.◌∷◌ d t) String.[] h k = ground (arith, clauses.cons-nil d t)
str_trans (String.◌∷◌ c s) (String.◌∷◌ d t) (String.◌∷◌ e u) h k = ground (
  arith,
  clauses.cons-cons c d s t,
  clauses.cons-cons d e t u,
  clauses.cons-cons c e s u,
  str_trans s t u,
)

instance abbrev pub str_ord : Ord String
str_ord = record {
  cmp = compare_text;
  cmp_self = compare_refl;
  cmp_eq = path_by_compare;
  cmp_flip = str_flip;
  cmp_trans = str_trans;
}

pub Ordering-cases : (c : Ordering) → (c ≡ lt) ⊎ (c ≡ eq) ⊎ (c ≡ gt)
Ordering-cases Ordering.lt = inl refl
Ordering-cases Ordering.eq = inr (inl refl)
Ordering-cases Ordering.gt = inr (inr refl)

module _ {ℓ} {K : Type ℓ} ⦃o : Ord K⦄ where
  -- Equality of keys, as the order decides it.
  abbrev pub same : K → K → Bool
  same a b = elim (o.cmp a b) [ Ordering.eq ↦ true | _ ↦ false ]

  pub same_iff : (a b : K) → (same a b ≡ true) ↔ (a ≡ b)
  same_iff a b = (λ h. o.cmp_eq a b (ground arith), λ e. rw (e, same, o.cmp_self b))

  -- The order has no cycle.
  pub cmp_irrefl : (a : K) → o.cmp a a ≡ lt → ⊥
  cmp_irrefl a h = ground (arith, o.cmp_self a)

  pub cmp_swap : (a b : K) → o.cmp a b ≡ lt → o.cmp b a ≡ gt
  cmp_swap a b h = ground (arith, o.cmp_trans a b a, cmp_irrefl a, o.cmp_eq b a, o.cmp_self a)
