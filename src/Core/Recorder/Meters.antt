-- ===== src/Core/Recorder/Meters.antt =====
-- What is counted exactly while threads record: a reading of the recorder, with what the calls that are
-- under way still owe it, makes up the shares of all calls so far.
use mcp_loadtest.Base.{
  ℕ, ◌+◌, ◌≤◌, ◌<◌, List, [], ◌∷◌, String, none, some, ◌≡◌, ◌≢◌, arith, All, length, weigh,
}
use mcp_loadtest.Base.Checked.{u64_limit}
use mcp_loadtest.Base.Map.{get}
use mcp_loadtest.Base.Order.{str_ord}
use mcp_loadtest.Core.Recorder.{Hdr, Recorder, PerToolState, new, num_shards}
use mcp_loadtest.Core.Recorder.Threads.{
  Call, Pc, idle, counted, found, tool_counted, System, act, count_call,
}

module _ (lib : Hdr) where
  -- Each histogram has all its shards.
  pub record Shaped (r : Recorder lib) : Type 0 where
    pub global : length r.latency ≡ num_shards
    pub tools :
        (name : String) (s : PerToolState lib)
        → get name r.per_tool ≡ some s
        → length s.latency ≡ num_shards

  -- A thread that has the state of a tool has that of an entry.
  abbrev pub Holds : Recorder lib → Pc → Type 0
  Holds r (found name c) = get name r.per_tool ≢ none
  Holds r (tool_counted name c) = get name r.per_tool ≢ none
  Holds r _ = Unit

  pub record Meter : Type 0 where
    pub reading : Recorder lib → ℕ
    pub owed : Pc → ℕ
    pub share : Call → ℕ

  pub record IsExact (m : Meter) : Type 0 where
    pub starts : (now : ℕ) → m.reading (new lib now) ≡ 0
    pub rests : m.owed idle ≡ 0
    pub small : (c : Call) → m.share c ≤ 1
    pub begins :
        (c : Call) (r : Recorder lib)
        → m.reading r + m.share c < u64_limit
        → m.reading (count_call lib c r) + m.owed (counted c) ≡ m.reading r + m.share c
    pub moves :
        (hash now : ℕ) (r : Recorder lib) (p : Pc)
        → Shaped r
        → Holds r p
        → m.reading r + m.owed p < u64_limit
        → m.reading (act lib hash now r p).0 + m.owed (act lib hash now r p).1
          ≡ m.reading r + m.owed p

  pub record Inv (s : System lib) : Type 0 where
    pub shaped : Shaped s.recorder
    pub holding : All (Holds s.recorder) s.threads

  abbrev pub Balanced : Meter → System lib → Type 0
  Balanced m s = m.reading s.recorder + weigh m.owed s.threads ≡ weigh m.share s.calls

  pub weigh-le : (m : Meter) → IsExact m → (calls : List Call) → weigh m.share calls ≤ length calls
  weigh-le m x [] = omega arith
  weigh-le m x (c ∷ rest) = omega (arith, x.small c, weigh-le m x rest)
