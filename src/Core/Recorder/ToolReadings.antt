-- ===== src/Core/Recorder/ToolReadings.antt =====
-- The meters of a recorder (crates/core/src/metrics/mod.rs): a counter and the histogram of a tool are
-- exact for one action.
use mcp_loadtest.Base.{
  ℕ, ◌+◌, ◌<◌, Bool, false, ◌&&◌, String, Option, none, some, ◌≡◌, ◌≢◌, refl, arith, length,
  Bool-cases, inl, inr, ap,
}
use mcp_loadtest.Base.Checked.{u64_limit}
use mcp_loadtest.Base.Map.{get, get-insert, get-update, get-nil}
use mcp_loadtest.Base.Order.{str_ord, same, same_iff}
use mcp_loadtest.Core.Recorder.{Hdr, Recorder, PerToolState, new_tool, num_shards}
use mcp_loadtest.Core.Recorder.Threads.{
  Call, Pc, idle, counted, recorded, missed, found, tool_counted, act, count_call, returned,
  look_up, enter_tool, on_tool, count_tool, measure_tool,
}
use mcp_loadtest.Core.Recorder.Meters.{Meter, IsExact, Shaped, Holds}
use mcp_loadtest.Core.Recorder.Counters.{one_if_le, one_if}

abbrev pub for_tool : String → Option String → Bool
for_tool t none = false
for_tool t (some name) = same t name

module _ (lib : Hdr) where
  -- A value of a tool's state, 0 where there is none.
  abbrev pub of_entry : (PerToolState lib → ℕ) → Option (PerToolState lib) → ℕ
  of_entry f none = 0
  of_entry f (some s) = f s

  -- What the calls of one tool add to a value of its state: with the counter of the tool, or `late`, with
  -- its histogram.
  module _ (t : String) (f : PerToolState lib → ℕ) (want : Call → Bool) (late : Bool) where
    abbrev tool_owed : Pc → ℕ
    tool_owed idle = 0
    tool_owed (counted c) = one_if (for_tool t c.tool && want c)
    tool_owed (recorded name c) = one_if (same t name && want c)
    tool_owed (missed name c) = one_if (same t name && want c)
    tool_owed (found name c) = one_if (same t name && want c)
    tool_owed (tool_counted name c) = one_if (late && (same t name && want c))

    abbrev pub tool_meter : Meter lib
    tool_meter = record {
      reading = λ r. of_entry f (get t r.per_tool);
      owed = tool_owed;
      share = λ c. one_if (for_tool t c.tool && want c);
    }

    -- The value is 0 in a new state, and grows by the two actions that change a state.
    pub record Grows : Type 0 where
      pub at_first : (now : ℕ) → f (new_tool lib now) ≡ 0
      pub by_count :
          (c : Call) (s : PerToolState lib)
          → f s + one_if (want c) < u64_limit
          → f (count_tool lib c s) + one_if (late && want c) ≡ f s + one_if (want c)
      pub by_measure :
          (hash : ℕ) (c : Call) (s : PerToolState lib)
          → length s.latency ≡ num_shards
          → f (measure_tool lib hash c s) ≡ f s + one_if (late && want c)

    tool_owed-returned :
        (c : Call) (o : Option String)
        → tool_owed (returned lib c o) ≡ one_if (for_tool t o && want c)
    tool_owed-returned c none = refl
    tool_owed-returned c (some name) = refl

    tool_owed-look_up :
        (name : String) (c : Call) (o : Option (PerToolState lib))
        → tool_owed (look_up lib name c o) ≡ one_if (same t name && want c)
    tool_owed-look_up name c none = refl
    tool_owed-look_up name c (some s) = refl

    module _ (g : Grows) where
      enter_tool-reading :
          (now : ℕ) (name : String) (r : Recorder lib) (o : Option (PerToolState lib))
          → get name r.per_tool ≡ o
          → of_entry f (get t (enter_tool lib now name r o).per_tool)
            ≡ of_entry f (get t r.per_tool)
      enter_tool-reading now name r (some s) e = refl
      enter_tool-reading now name r none e =
          ground (
            arith,
            get-insert t name (new_tool lib now) r.per_tool,
            same_iff t name,
            g.at_first now,
          )

      count_tool-reading :
          (name : String) (c : Call) (r : Recorder lib) (o : Option (PerToolState lib))
          → get name r.per_tool ≡ o
          → o ≢ none
          → of_entry f (get t r.per_tool) + one_if (same t name && want c) < u64_limit
          → of_entry f (get t (on_tool lib name (count_tool lib c) r o).per_tool)
              + one_if (late && (same t name && want c))
            ≡ of_entry f (get t r.per_tool) + one_if (same t name && want c)
      count_tool-reading name c r none e there h = absurd (there refl)
      count_tool-reading name c r (some s) e there h = elim (Bool-cases (same t name)) [
        | inl i ↦ ground (
          arith,
          i,
          get-update t name (count_tool lib c s) r.per_tool,
          ap (λ j. get j r.per_tool) ((same_iff t name).0 i),
          g.by_count c s,
        )
        | inr i ↦ ground (arith, i, get-update t name (count_tool lib c s) r.per_tool)
      ]

      measure_tool-reading :
          (hash : ℕ) (name : String) (c : Call) (r : Recorder lib) (o : Option (PerToolState lib))
          → get name r.per_tool ≡ o
          → o ≢ none
          → Shaped lib r
          → of_entry f (get t (on_tool lib name (measure_tool lib hash c) r o).per_tool)
            ≡ of_entry f (get t r.per_tool) + one_if (late && (same t name && want c))
      measure_tool-reading hash name c r none e there h = absurd (there refl)
      measure_tool-reading hash name c r (some s) e there h = elim (Bool-cases (same t name)) [
        | inl i ↦ ground (
          arith,
          i,
          get-update t name (measure_tool lib hash c s) r.per_tool,
          ap (λ j. get j r.per_tool) ((same_iff t name).0 i),
          g.by_measure hash c s (h.tools name s e),
        )
        | inr i ↦ ground (arith, i, get-update t name (measure_tool lib hash c s) r.per_tool)
      ]

      tool_meter-moves :
          (hash now : ℕ) (r : Recorder lib) (p : Pc)
          → Shaped lib r
          → Holds lib r p
          → of_entry f (get t r.per_tool) + tool_owed p < u64_limit
          → of_entry f (get t (act lib hash now r p).0.per_tool)
              + tool_owed (act lib hash now r p).1
            ≡ of_entry f (get t r.per_tool) + tool_owed p
      unfolding act
      tool_meter-moves hash now r idle s v h = refl
      tool_meter-moves hash now r (counted c) s v h = rw (tool_owed-returned c c.tool) refl
      tool_meter-moves hash now r (recorded name c) s v h =
          rw (tool_owed-look_up name c (get name r.per_tool)) refl
      tool_meter-moves hash now r (missed name c) s v h =
          rw (enter_tool-reading now name r _ refl) refl
      tool_meter-moves hash now r (found name c) s v h = count_tool-reading name c r _ refl v h
      tool_meter-moves hash now r (tool_counted name c) s v h =
          omega (arith, measure_tool-reading hash name c r _ refl v s)

      pub tool_meter-IsExact : IsExact lib tool_meter
      unfolding count_call
      tool_meter-IsExact = record {
        starts = λ now. ground (arith, get-nil {V = PerToolState lib} t);
        rests = refl;
        small = λ c. one_if_le _;
        begins = λ c r h. refl;
        moves = tool_meter-moves;
      }
