-- ===== src/Distributed/Shard.antt =====
-- crates/distributed/src/shard.rs: how a global concurrency is split over named agents.
pub mod Split
pub mod Order
mod Tests
use mcp_loadtest.Base.{
  ℕ, zero, suc, ◌+◌, ◌/◌, ◌%◌, String, Bool, true, false, not, ◌&&◌, ◌||◌, List, [], ◌∷◌, Result,
  ok, err, reject, ◌>>=◌, ◌>>◌, ltb, leb, if◌then◌else◌, length, is_empty, str_eq,
}
use Prim.Native.Char.{Char, code}
use Prim.Native.String.{len as text_len}
use mcp_loadtest.Base.Order.{str_ord}
use mcp_loadtest.Base.Map.{get, insert, keys}
use mcp_loadtest.Base.Sets.{holds}
use mcp_loadtest.Base.Checked.{u32_limit}
use mcp_loadtest.Distributed.Plan.{AgentShard}

-- `ShardError`
pub data Error : Type 0 where
  empty_agents : Error
  duplicate_agent : (name : String) → Error
  invalid_agent_name : (name : String) → Error
  insufficient_concurrency : (global agents : ℕ) → Error
  too_many_agents : Error

abbrev within : ℕ → ℕ → ℕ → Bool
within low high n = leb low n && leb n high

-- `is_ascii_alphanumeric`, or one of `-`, `.` and `_`
abbrev is_portable_code : ℕ → Bool
is_portable_code n =
    within 48 57 n || within 65 90 n || within 97 122 n || within 45 46 n || within 95 95 n

-- `bytes().all(…)`: a character that takes several bytes has none that is ASCII.
all_portable : String → Bool
all_portable String.[] = true
all_portable (String.◌∷◌ c s) = is_portable_code (code c) && all_portable s

unfoldable pub is_portable_name : String → Bool
unfolding all_portable
is_portable_name name =
    not (str_eq name "")
    && leb (text_len name) 64
    && all_portable name
    && not (str_eq name "." || str_eq name "..")

-- The loop that collects the names in a `BTreeSet`.
unfoldable pub collect_names :
    List String → List (String × Unit {0}) → Result Error (List (String × Unit {0}))
collect_names [] names = ok names
collect_names (name ∷ rest) names = do
  reject (not (is_portable_name name)) (invalid_agent_name name)
  reject (holds name names) (duplicate_agent name)
  collect_names rest (insert name tt names)

-- `base + u32::from(index < remainder)`
abbrev pub share : ℕ → ℕ → ℕ → ℕ
share global count index = global / count + (if ltb index (global % count) then 1 else 0)

unfoldable pub number : ℕ → ℕ → ℕ → List String → List AgentShard
number global count index [] = []
number global count index (name ∷ rest) =
    record {
      agent_name = name;
      index = index;
      agent_count = count;
      concurrency = share global count index;
    }
    ∷ number global count (index + 1) rest

unfoldable pub plan_shards : ℕ → List String → Result Error (List AgentShard)
plan_shards global names = do
  reject (is_empty names) empty_agents
  reject (leb u32_limit (length names)) too_many_agents
  reject (ltb global (length names)) (insufficient_concurrency global (length names))
  set ← collect_names names []
  ok (number global (length names) 0 (keys set))
