-- ===== src/Core/Recorder/Threads.antt =====
-- `Recorder::record` and `Recorder::record_tool` (crates/core/src/metrics/mod.rs) in several threads: a
-- call is a sequence of actions, each under one atomic operation or one lock, and the actions of
-- different threads come in any order. No holder of a lock panics, so that none is ever poisoned.
use mcp_loadtest.Base.{ℕ, get_elem?, replicate, modify, List, [], ◌∷◌, String, Option, none, some}
use mcp_loadtest.Base.Map.{get, insert, update}
use mcp_loadtest.Base.Order.{str_ord}
use mcp_loadtest.Core.Metrics.{CallOutcome}
use mcp_loadtest.Core.Recorder.{Hdr, Recorder, PerToolState, new, new_tool, bump, measure_latency}

-- A call of `record`, or with the name of a tool of `record_tool`.
pub record Call : Type 0 where
  pub tool : Option String
  pub duration : ℕ
  pub outcome : CallOutcome

-- Where a thread stands in the call that it makes.
pub data Pc : Type 0 where
  idle : Pc
  counted : (c : Call) → Pc  -- the global counter is bumped
  recorded : (name : String) (c : Call) → Pc  -- `self.record` has returned
  missed : (name : String) (c : Call) → Pc  -- no state under the read lock
  found : (name : String) (c : Call) → Pc  -- has the state of the tool
  tool_counted : (name : String) (c : Call) → Pc  -- the counter of the tool is bumped

module _ (lib : Hdr) where
  -- The first action of a call.
  unfoldable pub count_call : Call → Recorder lib → Recorder lib
  count_call c r = record r { outcomes = bump c.outcome r.outcomes }

  abbrev pub returned : Call → Option String → Pc
  returned c none = idle
  returned c (some name) = recorded name c

  -- `map.get(tool)`
  abbrev pub look_up : String → Call → Option (PerToolState lib) → Pc
  look_up name c none = missed name c
  look_up name c (some s) = found name c

  -- `map.entry(tool).or_insert_with(PerToolState::new)`
  abbrev pub enter_tool :
      (now : ℕ) → String → Recorder lib → Option (PerToolState lib) → Recorder lib
  enter_tool now name r (some s) = r
  enter_tool now name r none = record r { per_tool = insert name (new_tool lib now) r.per_tool }

  -- A change of a tool's state, which the entry of the map and the threads share.
  abbrev pub on_tool :
      String
      → (PerToolState lib → PerToolState lib)
      → Recorder lib
      → Option (PerToolState lib)
      → Recorder lib
  on_tool name f r none = r
  on_tool name f r (some s) = record r { per_tool = update name (f s) r.per_tool }

  abbrev pub count_tool : Call → PerToolState lib → PerToolState lib
  count_tool c s = record s { outcomes = bump c.outcome s.outcomes }

  abbrev pub measure_tool : (hash : ℕ) → Call → PerToolState lib → PerToolState lib
  measure_tool hash c s = record s {
    latency = measure_latency lib hash c.duration c.outcome s.latency;
  }

  -- The next action of a thread.
  unfoldable pub act : (hash now : ℕ) → Recorder lib → Pc → Recorder lib × Pc
  act hash now r idle = (r, idle)
  act hash now r (counted c) = (
    record r { latency = measure_latency lib hash c.duration c.outcome r.latency },
    returned c c.tool,
  )
  act hash now r (recorded name c) = (r, look_up name c (get name r.per_tool))
  act hash now r (missed name c) = (enter_tool now name r (get name r.per_tool), found name c)
  act hash now r (found name c) =
      (on_tool name (count_tool c) r (get name r.per_tool), tool_counted name c)
  act hash now r (tool_counted name c) =
      (on_tool name (measure_tool hash c) r (get name r.per_tool), idle)

  -- The recorder, the threads that share it and, for what is stated of them, the calls so far.
  pub record System : Type 0 where
    pub recorder : Recorder lib
    pub threads : List Pc
    pub calls : List Call

  -- A thread that is in no call begins one, or a thread takes its next action at the time `now`.
  pub data Event : Type 0 where
    begin : (thread : ℕ) (c : Call) → Event
    go : (thread now : ℕ) → Event

  abbrev pub begin_at : ℕ → Call → System → Option Pc → System
  begin_at i c s (some idle) = record {
    recorder = count_call c s.recorder;
    threads = modify i (λ _. counted c) s.threads;
    calls = c ∷ s.calls;
  }
  begin_at i c s _ = s

  abbrev pub go_at : (hash now : ℕ) → ℕ → System → Option Pc → System
  go_at hash now i s none = s
  go_at hash now i s (some p) =
      let (r, q) = act hash now s.recorder p in
      record s { recorder = r; threads = modify i (λ _. q) s.threads }

  module _ (hash : ℕ → ℕ) where
    unfoldable pub step : System → Event → System
    step s (begin i c) = begin_at i c s (get_elem? s.threads i)
    step s (go i now) = go_at (hash i) now i s (get_elem? s.threads i)

    unfoldable pub run : System → List Event → System
    unfolding step
    run s [] = s
    run s (e ∷ rest) = run (step s e) rest

  unfoldable pub fresh : (threads now : ℕ) → System
  fresh threads now = record {
    recorder = new lib now;
    threads = replicate threads idle;
    calls = [];
  }
