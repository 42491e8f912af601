-- ===== src/Distributed/Shard/Split.antt =====
-- `plan_shards` (crates/distributed/src/shard.rs) splits evenly and in the order of the names.
use mcp_loadtest.Base.{
  ℕ, suc, ◌+◌, ◌*◌, ◌/◌, ◌%◌, ◌≤◌, ◌<◌, String, true, false, ◌||◌, List, [], ◌∷◌, map, ok, ◌≡◌,
  refl, ap, ◌∙◌, zero, arith, length, All, any, sum, Result-cases, inl, inr, min, str_eq,
  str_eq_iff,
}
use native.Mathlib.Nat.{div-add-mod, mod-lt}
use mcp_loadtest.Base.Order.{str_ord, same_iff}
use mcp_loadtest.Base.Map.{get, IsSorted, insert-IsSorted, keys, insert}
use mcp_loadtest.Base.Sets.{holds, holds-insert, length-insert}
use mcp_loadtest.Distributed.Plan.{AgentShard}
use mcp_loadtest.Distributed.Shard.{collect_names, is_portable_name, number, plan_shards}
use mcp_loadtest.Distributed.Cohort.{Rising, keys-Rising, keys-holds, length-keys}

-- The shares of the agents from an index on.
share_sum :
    (global count index : ℕ) (names : List String)
    → sum (map (λ s. s.concurrency) (number global count index names)) + min (global % count) index
      ≡ length names * (global / count) + min (global % count) (index + length names)
unfolding number
share_sum global count index [] = ground arith
share_sum global count index (name ∷ rest) = ground (arith, share_sum global count (index + 1) rest)

-- A name that the loop lets in.
collect_step :
    (name : String) (rest : List String) (set : List (String × Unit {0}))
    {r : List (String × Unit {0})}
    → collect_names (name ∷ rest) set ≡ ok r
    → (is_portable_name name ≡ true)
      × (holds name set ≡ false)
      × (collect_names rest (insert name tt set) ≡ ok r)
unfolding collect_names
collect_step name rest set h = ground arith

-- What the loop leaves, from `set` to `r`.
pub record Collected (set : List (String × Unit {0})) (names : List String)
    (r : List (String × Unit {0})) : Type 0 where
  pub portable : All (λ x. is_portable_name x ≡ true) names
  pub as_many : length r ≡ length set + length names
  pub members : (x : String) → holds x r ≡ (holds x set || any (str_eq x) names)
  pub sorted : IsSorted r

pub collect_names-Collected :
    (names : List String) (set : List (String × Unit {0})) {r : List (String × Unit {0})}
    → IsSorted set
    → collect_names names set ≡ ok r
    → Collected set names r
unfolding collect_names
collect_names-Collected [] set s h = record {
  portable = tt;
  as_many = ground arith;
  members = λ x. ground arith;
  sorted = ground (arith, s);
}
collect_names-Collected (y ∷ names) set {r} s h =
    let (portable, fresh, went) = collect_step y names set h in
    let rest : Collected (insert y tt set) names r =
      collect_names-Collected names (insert y tt set) (insert-IsSorted y tt set s) went in
    record {
      portable = (portable, rest.portable);
      as_many = ground (arith, rest.as_many, length-insert y tt set fresh);
      members = λ x.
          ground (arith, rest.members x, holds-insert x y tt set, same_iff x y, str_eq_iff x y);
      sorted = rest.sorted;
    }

-- An even share: at least one worker, and the quotient or one more.
pub record Even (global count : ℕ) (s : AgentShard) : Type 0 where
  pub busy : 1 ≤ s.concurrency
  pub at_least : global / count ≤ s.concurrency
  pub at_most : s.concurrency ≤ global / count + 1
  pub counted : s.agent_count ≡ count

abbrev pub upto : ℕ → ℕ → List ℕ
upto zero from = []
upto (suc n) from = from ∷ upto n (from + 1)

number-Even :
    (global count index : ℕ) (names : List String)
    → 1 ≤ global / count
    → All (Even global count) (number global count index names)
unfolding number
number-Even global count index [] b = tt
number-Even global count index (x ∷ names) b =
    (ground arith, number-Even global count (index + 1) names b)

number_indices :
    (global count index : ℕ) (names : List String)
    → map (λ s. s.index) (number global count index names) ≡ upto (length names) index
unfolding number
number_indices global count index [] = refl
number_indices global count index (x ∷ names) =
    ap (λ l. index ∷ l) (number_indices global count (index + 1) names)

number_names :
    (global count index : ℕ) (names : List String)
    → map (λ s. s.agent_name) (number global count index names) ≡ names
unfolding number
number_names global count index [] = refl
number_names global count index (x ∷ names) =
    ap (λ l. x ∷ l) (number_names global count (index + 1) names)

quotient_positive : (a b : ℕ) → 0 < b → b ≤ a → 1 ≤ a / b
quotient_positive a b p h = ground (arith, div-add-mod a b, mod-lt a p)

-- All shares make up the whole.
all_shares :
    (global count : ℕ) (names : List String) {n : ℕ}
    → length names ≡ count
    → 0 < count
    → n ≡ sum (map (λ s. s.concurrency) (number global count 0 names))
    → n ≡ global
all_shares global count names {n} size p e =
    let total = share_sum global count 0 names in
    let product : length names * (global / count) ≡ count * (global / count) =
      ap (λ k. k * (global / count)) size in
    ground (arith, total, product, size, div-add-mod global count, mod-lt global p)

-- The plan for a global concurrency and a list of names.
pub record Split (global : ℕ) (names : List String) (shards : List AgentShard) : Type 0 where
  pub all_workers : sum (map (λ s. s.concurrency) shards) ≡ global
  pub even : All (Even global (length names)) shards
  pub numbered : map (λ s. s.index) shards ≡ upto (length names) 0
  pub sorted : Rising (map (λ s. s.agent_name) shards)
  pub members :
      (x : String) → any (str_eq x) (map (λ s. s.agent_name) shards) ≡ any (str_eq x) names
  pub portable : All (λ x. is_portable_name x ≡ true) names

pub plan_parts :
    (global : ℕ) (names : List String) {shards : List AgentShard}
    → plan_shards global names ≡ ok shards
    → (0 < length names)
      × (length names ≤ global)
      × ((set : List (String × Unit {0})) × (collect_names names [] ≡ ok set)
          × (shards ≡ number global (length names) 0 (keys set)))
unfolding plan_shards
plan_parts global [] h = absurd (ground arith)
plan_parts global (x ∷ names) h = elim (Result-cases (collect_names (x ∷ names) [])) [
  | inr (e, bad) ↦ absurd (ground (arith, bad))
  | inl (set, good) ↦ (ground arith, ground (arith, good), (set, good, ground (arith, good)))
]

-- If planning succeeds, the shards together have exactly the global concurrency, each has the quotient
-- or one more and at least one worker, they are numbered from 0 in the rising order of their names, and
-- their names are the portable names that were given.
pub plan_shards-Split :
    (global : ℕ) (names : List String) {shards : List AgentShard}
    → plan_shards global names ≡ ok shards
    → Split global names shards
unfolding get
plan_shards-Split global names {shards} h =
    let (some_agent, enough, (set, collected, planned)) = plan_parts global names h in
    let c = collect_names-Collected names [] tt collected in
    let size : length (keys set) ≡ length names = ground (arith, length-keys set, c.as_many) in
    let called : map (λ s. s.agent_name) shards ≡ keys set =
      ap (map (λ s. s.agent_name)) planned ∙ number_names global (length names) 0 (keys set) in
    record {
      all_workers =
          all_shares global (length names) (keys set) size some_agent
            (ap (λ l. sum (map (λ s. s.concurrency) l)) planned);
      even = rw planned (
          number-Even global (length names) 0 (keys set)
            (quotient_positive global (length names) some_agent enough));
      numbered =
          ap (map (λ s. s.index)) planned
          ∙ number_indices global (length names) 0 (keys set)
          ∙ ap (λ n. upto n 0) size;
      sorted = rw called (keys-Rising set c.sorted);
      members = λ x. rw called (ground (arith, keys-holds x set, c.members x));
      portable = c.portable;
    }
