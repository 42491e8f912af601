-- ===== src/Base/Float.antt =====
-- `f64`, with exact comparisons. A finite value is a whole number of units of 2^-1074, the least
-- positive double, so every double is a value here.
use mcp_loadtest.Base.Tests.{ltb, ◌==◌, if◌then◌else◌}
use Prim.Native.Nat.{ℕ, zero, suc, ◌+◌, ◌-◌, ◌*◌, ◌/◌, ◌%◌, ◌^◌, min}
use mathlib.Core.Path.{◌≡◌, refl}
use mathlib.Core.Bool.{Bool, true, false, not, ◌&&◌}

pub data F64 : Type 0 where
  nan : F64
  infinite : (negative : Bool) → F64
  finite : (negative : Bool) (units : ℕ) → F64

unfoldable pub is_finite : F64 → Bool
is_finite (finite s n) = true
is_finite _ = false

-- `<`, false where one side is no number; 0 and -0 are equal.
unfoldable pub lt : F64 → F64 → Bool
lt nan y = false
lt (infinite s) nan = false
lt (infinite true) (infinite t) = not t
lt (infinite false) (infinite t) = false
lt (infinite true) (finite t n) = true
lt (infinite false) (finite t n) = false
lt (finite s m) nan = false
lt (finite s m) (infinite t) = not t
lt (finite false m) (finite false n) = ltb m n
lt (finite true m) (finite true n) = ltb n m
lt (finite true m) (finite false n) = not (m == 0 && n == 0)
lt (finite false m) (finite true n) = false

-- `x <= 0.0`
unfoldable pub le_zero : F64 → Bool
le_zero nan = false
le_zero (infinite s) = s
le_zero (finite true n) = true
le_zero (finite false n) = n == 0

abbrev pub zero_f64 : F64
zero_f64 = finite false 0

-- The quotient rounded to the nearest whole number, to the even one of two that are equally near.
abbrev half_even : ℕ → ℕ → ℕ
half_even p q =
    let whole = p / q in
    let rest = 2 * (p % q) in
    if ltb rest q then whole else if ltb q rest then whole + 1 else whole + whole % 2

-- The units of the double that is nearest to `p / q` units: the unit of the rounding is doubled until
-- 53 bits are left. A double has fewer than 2100 doublings.
round_units : ℕ → ℕ → ℕ → ℕ → ℕ
round_units zero unit p q = half_even p q * unit
round_units (suc fuel) unit p q =
    let wider = round_units fuel (2 * unit) p (2 * q) in
    if ltb (p / q) (2 ^ 53) then half_even p q * unit else wider

-- The double nearest to a fraction of units, infinite from 2 ^ 1024 on.
rounded : Bool → ℕ → ℕ → F64
unfolding round_units
rounded negative p q =
    let units = round_units 2100 1 p q in
    if ltb units (2 ^ 2098) then finite negative units else infinite negative

-- `n as f64`
unfoldable pub of_nat : ℕ → F64
unfolding rounded
of_nat n = rounded false (n * 2 ^ 1074) 1

abbrev differ : Bool → Bool → Bool
differ true s = not s
differ false s = s

unfoldable pub div : F64 → F64 → F64
unfolding rounded
div nan y = nan
div x nan = nan
div (infinite s) (infinite t) = nan
div (infinite s) (finite t n) = infinite (differ s t)
div (finite s m) (infinite t) = finite (differ s t) 0
div (finite s zero) (finite t zero) = nan
div (finite s (suc m)) (finite t zero) = infinite (differ s t)
div (finite s m) (finite t n) = rounded (differ s t) (m * 2 ^ 1074) n

abbrev pub negate : F64 → F64
negate nan = nan
negate (infinite s) = infinite (not s)
negate (finite s n) = finite (not s) n

-- The sum of two finite values of the signs `s` and `t`; a sum that cancels is 0.
add_units : Bool → ℕ → Bool → ℕ → F64
unfolding rounded
add_units s m t n =
    if not (differ s t)
    then rounded s (m + n) 1
    else if ltb n m
    then rounded s (m - n) 1
    else if ltb m n
    then rounded t (n - m) 1
    else finite false 0

unfoldable pub add : F64 → F64 → F64
unfolding add_units
add nan y = nan
add x nan = nan
add (infinite s) (infinite t) = if differ s t then nan else infinite s
add (infinite s) (finite t n) = infinite s
add (finite s m) (infinite t) = infinite t
add (finite s m) (finite t n) = add_units s m t n

unfoldable pub sub : F64 → F64 → F64
unfolding add
sub x y = add x (negate y)

unfoldable pub mul : F64 → F64 → F64
unfolding rounded
mul nan y = nan
mul x nan = nan
mul (infinite s) (infinite t) = infinite (differ s t)
mul (infinite s) (finite t zero) = nan
mul (infinite s) (finite t (suc n)) = infinite (differ s t)
mul (finite s zero) (infinite t) = nan
mul (finite s (suc m)) (infinite t) = infinite (differ s t)
mul (finite s m) (finite t n) = rounded (differ s t) (m * n) (2 ^ 1074)

-- `f64::max`, which passes over a value that is no number.
unfoldable pub max_f64 : F64 → F64 → F64
unfolding lt
max_f64 nan y = y
max_f64 x nan = x
max_f64 x y = if lt x y then y else x

abbrev pub abs : F64 → F64
abs nan = nan
abs (infinite s) = infinite false
abs (finite s n) = finite false n

-- `x as u64`: the whole part, within the bounds of the type.
unfoldable pub to_u64 : F64 → ℕ
to_u64 nan = 0
to_u64 (infinite true) = 0
to_u64 (infinite false) = 2 ^ 64 - 1
to_u64 (finite true n) = 0
to_u64 (finite false n) = min (n / 2 ^ 1074) (2 ^ 64 - 1)

half_of_three : div (of_nat 3) (of_nat 2) ≡ finite false (3 * 2 ^ 1073)
unfolding div of_nat rounded round_units
half_of_three = refl

third : div (of_nat 1) (of_nat 3) ≡ finite false (6004799503160661 * 2 ^ 1020)
unfolding div of_nat rounded round_units
third = refl

one_less_two : sub (of_nat 1) (of_nat 2) ≡ finite true (2 ^ 1074)
unfolding sub of_nat rounded round_units
one_less_two = refl

half_squared : mul (div (of_nat 1) (of_nat 2)) (div (of_nat 1) (of_nat 2)) ≡ finite false (2 ^ 1072)
unfolding mul div of_nat rounded round_units
half_squared = refl
