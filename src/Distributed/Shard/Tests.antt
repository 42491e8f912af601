-- ===== src/Distributed/Shard/Tests.antt =====
-- The inventories of the tests of crates/distributed/src/shard.rs, and the theorems at them.
use mcp_loadtest.Base.{ℕ, String, List, [], ◌∷◌, ok, err, ◌≡◌, refl, str_eq, any, arith}
use mcp_loadtest.Base.Order.{str_ord}
use mcp_loadtest.Base.Map.{get, insert}
use mcp_loadtest.Distributed.Plan.{AgentShard}
use mcp_loadtest.Distributed.Shard.{
  plan_shards, collect_names, is_portable_name, all_portable, number, insufficient_concurrency,
  duplicate_agent, invalid_agent_name,
}
use mcp_loadtest.Distributed.Shard.Split.{Split, plan_shards-Split}
use mcp_loadtest.Distributed.Shard.Order.{plan_shards_order, plan_shards_total}

abbrev regions : List String
regions = "west" ∷ "east" ∷ "central" ∷ []

abbrev part : String → ℕ → ℕ → AgentShard
part name index concurrency = record {
  agent_name = name;
  index = index;
  agent_count = 3;
  concurrency = concurrency;
}

abbrev eight : List AgentShard
eight = part "central" 0 3 ∷ part "east" 1 3 ∷ part "west" 2 2 ∷ []

plan_eight : plan_shards 8 regions ≡ ok eight
unfolding plan_shards collect_names is_portable_name all_portable number get insert str_eq
plan_eight = refl

too_few : plan_shards 1 ("a" ∷ "b" ∷ []) ≡ err (insufficient_concurrency 1 2)
unfolding plan_shards
too_few = refl

twice : plan_shards 2 ("a" ∷ "a" ∷ []) ≡ err (duplicate_agent "a")
unfolding plan_shards collect_names is_portable_name all_portable get insert str_eq
twice = refl

not_portable : plan_shards 2 ("a" ∷ "../b" ∷ []) ≡ err (invalid_agent_name "../b")
unfolding plan_shards collect_names is_portable_name all_portable get insert str_eq
not_portable = refl

plan_shards-Split_example : Split 8 regions eight
plan_shards-Split_example = plan_shards-Split 8 regions plan_eight

abbrev arrivals : List String
arrivals = "east" ∷ "central" ∷ "west" ∷ []

plan_arrivals : plan_shards 8 arrivals ≡ ok eight
unfolding plan_shards collect_names is_portable_name all_portable number get insert str_eq
plan_arrivals = refl

same_regions : (x : String) → any (str_eq x) regions ≡ any (str_eq x) arrivals
same_regions x = ground arith

plan_shards_order_example : eight ≡ eight
plan_shards_order_example =
    plan_shards_order 8 regions arrivals same_regions plan_eight plan_arrivals

plan_shards_total_example : (shards : List AgentShard) × (plan_shards 8 regions ≡ ok shards)
unfolding is_portable_name all_portable str_eq
plan_shards_total_example =
    plan_shards_total 8 regions (omega arith) (omega arith) (omega arith) (refl, (refl, (refl, tt)))
      (refl, (refl, (refl, tt)))
