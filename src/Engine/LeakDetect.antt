-- ===== src/Engine/LeakDetect.antt =====
-- `detect_leak` of crates/engine/src/scenario/soak/leak_detect.rs: the slope of the least-squares line.
use mcp_loadtest.Base.{
  ◌^◌, true, false, ltb, List, [], ◌∷◌, length, map, Option, none, some, if◌then◌else◌,
}
use mcp_loadtest.Base.Float.{F64, finite, zero_f64, of_nat, add, sub, mul, div, lt, abs}

-- `iter().sum()`, which starts from -0.0.
pub sum_from : F64 → List F64 → F64
sum_from total [] = total
sum_from total (x ∷ xs) = sum_from (add total x) xs

pub mean_of : List F64 → F64
unfolding sum_from
mean_of xs = div (sum_from (finite true 0) xs) (of_nat (length xs))

-- The loop, over the numerator and the denominator.
pub fit : F64 → F64 → List (F64 × F64) → F64 × F64 → F64 × F64
fit t_mean y_mean [] (num, den) = (num, den)
fit t_mean y_mean ((t, y) ∷ rest) (num, den) =
    let dt = sub t t_mean in
    fit t_mean y_mean rest (add num (mul dt (sub y y_mean)), add den (mul dt dt))

-- `f64::EPSILON`
abbrev epsilon : F64
epsilon = finite false (2 ^ 1022)

unfoldable pub detect_leak : List (F64 × F64) → Option F64
unfolding mean_of fit
detect_leak samples =
    let t_mean = mean_of (map (λ s. s.0) samples) in
    let y_mean = mean_of (map (λ s. s.1) samples) in
    let (num, den) = fit t_mean y_mean samples (zero_f64, zero_f64) in
    if ltb (length samples) 2
    then none
    else if lt (abs den) epsilon
    then none
    else some (div num den)
