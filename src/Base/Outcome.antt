-- ===== src/Base/Outcome.antt =====
-- `Result<T, E>` and its chaining by `?`.
use mathlib.Core.Path.{◌≡◌, refl}
use mathlib.Core.Logic.{◌⊎◌, inl, inr}
use mathlib.Core.Bool.{Bool, true, false}
use mathlib.Core.Option.{Option, none, some}

pub data Result {ℓ κ} (E : Type ℓ) (A : Type κ) : Type (ℓ ⊔ κ) where
  ok : A → Result E A
  err : E → Result E A

module _ {ℓ κ μ} {E : Type ℓ} {T : Type κ} {U : Type μ} where
  infixl 5 ◌>>=◌
  abbrev pub ◌>>=◌ : Result E T → (T → Result E U) → Result E U
  err failure >>= next = err failure
  ok value >>= next = next value

module _ {ℓ κ} {E : Type ℓ} {U : Type κ} where
  infixl 5 ◌>>◌
  abbrev pub ◌>>◌ : Result E (Unit {0}) → Result E U → Result E U
  err failure >> next = err failure
  ok _ >> next = next

-- `if bad { return Err(e) }`
abbrev pub reject {ℓ} : {E : Type ℓ} → Bool → E → Result E (Unit {0})
reject true e = err e
reject false e = ok tt

abbrev pub is_some {ℓ} : {A : Type ℓ} → Option A → Bool
is_some none = false
is_some (some a) = true

-- `ok_or`
abbrev pub ok_or {ℓ κ} : {E : Type ℓ} {A : Type κ} → Option A → E → Result E A
ok_or none e = err e
ok_or (some a) e = ok a

-- A chain that succeeds has a first part that succeeds.
pub >>=-eq-ok {ℓ κ μ} :
    {E : Type ℓ} {T : Type κ} {U : Type μ} {u : U} (first : Result E T) (next : T → Result E U)
    → first >>= next ≡ ok u
    → (t : T) × (first ≡ ok t) × (next t ≡ ok u)
>>=-eq-ok (err failure) next h = cc
>>=-eq-ok (ok t) next h = (t, refl, h)

pub Result-cases {ℓ κ} :
    {E : Type ℓ} {T : Type κ} (r : Result E T)
    → ((t : T) × (r ≡ ok t)) ⊎ ((failure : E) × (r ≡ err failure))
Result-cases (ok t) = inl (t, refl)
Result-cases (err failure) = inr (failure, refl)
