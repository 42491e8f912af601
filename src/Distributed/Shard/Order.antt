-- ===== src/Distributed/Shard/Order.antt =====
-- `plan_shards` (crates/distributed/src/shard.rs) succeeds on a good inventory, whatever its order.
use mcp_loadtest.Base.{
  ℕ, ◌≤◌, ◌<◌, String, true, false, List, [], ◌∷◌, ok, ◌≡◌, refl, ap, arith, length, All, any,
  str_eq, str_eq_iff,
}
use mcp_loadtest.Base.Order.{str_ord, same_iff}
use mcp_loadtest.Base.Map.{get, insert, keys, ext}
use mcp_loadtest.Base.Sets.{holds, holds-insert}
use mcp_loadtest.Base.Checked.{u32_limit}
use mcp_loadtest.Distributed.Plan.{AgentShard}
use mcp_loadtest.Distributed.Shard.{collect_names, is_portable_name, number, plan_shards}
use mcp_loadtest.Distributed.Shard.Split.{collect_names-Collected, plan_parts}

-- Sets with the same members find the same.
same_members :
    (x : String) (m n : List (String × Unit {0})) → holds x m ≡ holds x n → get x m ≡ get x n
same_members x m n h = ground arith

-- If two lists of names with the same members are both planned for the same concurrency, the plans are
-- equal: the order of the inventory plays no part.
pub plan_shards_order :
    (global : ℕ) (xs ys : List String) {s t : List AgentShard}
    → ((x : String) → any (str_eq x) xs ≡ any (str_eq x) ys)
    → plan_shards global xs ≡ ok s
    → plan_shards global ys ≡ ok t
    → s ≡ t
plan_shards_order global xs ys {s} {t} same h k =
    let (p, q, (m, collected, planned)) = plan_parts global xs h in
    let (p', q', (n, collected', planned')) = plan_parts global ys k in
    let c = collect_names-Collected xs [] tt collected in
    let d = collect_names-Collected ys [] tt collected' in
    let agree : m ≡ n =
      ext m n c.sorted d.sorted
        λ x. same_members x m n (ground (arith, c.members x, d.members x, same x)) in
    let size : length xs ≡ length ys = ground (arith, c.as_many, d.as_many, ap length agree) in
    cc (planned, planned', agree, size)

-- No name stands twice.
abbrev pub Distinct : List String → Type 0
Distinct [] = Unit
Distinct (x ∷ xs) = (any (str_eq x) xs ≡ false) × Distinct xs

-- No name of the list is in the set.
abbrev Fresh : List (String × Unit {0}) → List String → Type 0
Fresh set names = All (λ x. holds x set ≡ false) names

still-Fresh :
    (x : String) (set : List (String × Unit {0})) (names : List String)
    → any (str_eq x) names ≡ false
    → Fresh set names
    → Fresh (insert x tt set) names
still-Fresh x set [] other f = tt
still-Fresh x set (y ∷ names) other f = (
  ground (arith, f.0, holds-insert y x tt set, same_iff y x, str_eq_iff x y),
  still-Fresh x set names (ground arith) f.1,
)

collects :
    (names : List String) (set : List (String × Unit {0}))
    → All (λ x. is_portable_name x ≡ true) names
    → Distinct names
    → Fresh set names
    → (r : List (String × Unit {0})) × (collect_names names set ≡ ok r)
unfolding collect_names
collects [] set p d f = (set, refl)
collects (x ∷ names) set p d f =
    let (r, went) = collects names (insert x tt set) p.1 d.1 (still-Fresh x set names d.0 f.1) in
    (r, ground (arith, went, p.0, f.0))

all-Fresh : (names : List String) → Fresh [] names
unfolding get
all-Fresh [] = tt
all-Fresh (x ∷ names) = (refl, all-Fresh names)

-- An inventory of portable names, none of them twice, at least one and at most as many as the
-- concurrency and as a `u32` counts, is planned.
pub plan_shards_total :
    (global : ℕ) (names : List String)
    → 1 ≤ length names
    → length names < u32_limit
    → length names ≤ global
    → All (λ x. is_portable_name x ≡ true) names
    → Distinct names
    → (shards : List AgentShard) × (plan_shards global names ≡ ok shards)
unfolding plan_shards
plan_shards_total global [] some_agent few enough p d = absurd (omega arith)
plan_shards_total global (x ∷ names) some_agent few enough p d =
    let (set, collected) = collects (x ∷ names) [] p d (all-Fresh (x ∷ names)) in
    (number global (length (x ∷ names)) 0 (keys set), ground (arith, collected, few, enough))
