-- ===== src/Core/Recorder/Balance.antt =====
-- Every meter that is exact for one action is so for any interleaving of the threads.
use mcp_loadtest.Base.{
  ℕ, ◌≤◌, ◌<◌, List, [], ◌∷◌, Option, none, some, ◌≡◌, refl, arith, length, get_elem?, weigh-modify,
  weigh-replicate, get_elem?-All,
}
use mcp_loadtest.Base.Checked.{u64_limit}
use mcp_loadtest.Core.Recorder.{Hdr}
use mcp_loadtest.Core.Recorder.Threads.{
  Call, Pc, idle, counted, recorded, missed, found, tool_counted, System, Event, begin, go, act,
  step, run, fresh, begin_at, go_at,
}
use mcp_loadtest.Core.Recorder.Meters.{Meter, IsExact, Inv, Balanced, weigh-le}
use mcp_loadtest.Core.Recorder.Shapes.{step-Inv, fresh-Inv}

module _ (lib : Hdr) where
  begin_at-calls :
      (i : ℕ) (c : Call) (s : System lib) (o : Option Pc)
      → length s.calls ≤ length (begin_at lib i c s o).calls
  begin_at-calls i c s none = omega arith
  begin_at-calls i c s (some idle) = omega arith
  begin_at-calls i c s (some _) = omega arith

  go_at-calls :
      (hash now i : ℕ) (s : System lib) (o : Option Pc) → (go_at lib hash now i s o).calls ≡ s.calls
  go_at-calls hash now i s none = refl
  go_at-calls hash now i s (some p) = refl

  module _ (hash : ℕ → ℕ) where
    step-calls :
        (s : System lib) (e : Event lib) → length s.calls ≤ length (step lib hash s e).calls
    unfolding step
    step-calls s (begin i c) = begin_at-calls i c s _
    step-calls s (go i now) =
        rw (go_at-calls (hash i) now i s (get_elem? s.threads i)) (omega arith)

    run-calls :
        (s : System lib) (events : List (Event lib))
        → length s.calls ≤ length (run lib hash s events).calls
    unfolding run
    run-calls s [] = omega arith
    run-calls s (e ∷ rest) = omega (arith, step-calls s e, run-calls (step lib hash s e) rest)

  module _ (m : Meter lib) (x : IsExact lib m) where
    begin_at-Balanced :
        (i : ℕ) (c : Call) (s : System lib) (o : Option Pc)
        → get_elem? s.threads i ≡ o
        → length (begin_at lib i c s o).calls < u64_limit
        → Balanced lib m s
        → Balanced lib m (begin_at lib i c s o)
    begin_at-Balanced i c s none e few b = b
    begin_at-Balanced i c s (some idle) e few b = omega (
      arith,
      x.rests,
      weigh-modify m.owed i (λ _. counted c) s.threads e,
      x.begins c s.recorder (omega (arith, x.small c, weigh-le lib m x s.calls)),
    )
    begin_at-Balanced i c s (some (counted d)) e few b = b
    begin_at-Balanced i c s (some (recorded name d)) e few b = b
    begin_at-Balanced i c s (some (missed name d)) e few b = b
    begin_at-Balanced i c s (some (found name d)) e few b = b
    begin_at-Balanced i c s (some (tool_counted name d)) e few b = b

    go_at-Balanced :
        (hash now i : ℕ) (s : System lib) (o : Option Pc)
        → get_elem? s.threads i ≡ o
        → length s.calls < u64_limit
        → Inv lib s
        → Balanced lib m s
        → Balanced lib m (go_at lib hash now i s o)
    go_at-Balanced hash now i s none e few v b = b
    go_at-Balanced hash now i s (some p) e few v b = omega (
      arith,
      weigh-modify m.owed i (λ _. (act lib hash now s.recorder p).1) s.threads e,
      x.moves hash now s.recorder p v.shaped (get_elem?-All _ i s.threads v.holding e)
          (omega (arith, weigh-le lib m x s.calls, weigh-modify m.owed i (λ _. idle) s.threads e)),
    )

    module _ (hash : ℕ → ℕ) where
      step-Balanced :
          (s : System lib) (e : Event lib)
          → length (step lib hash s e).calls < u64_limit
          → Inv lib s
          → Balanced lib m s
          → Balanced lib m (step lib hash s e)
      unfolding step
      step-Balanced s (begin i c) few v b = begin_at-Balanced i c s _ refl few b
      step-Balanced s (go i now) few v b =
          go_at-Balanced (hash i) now i s _ refl
            (rw (← go_at-calls (hash i) now i s (get_elem? s.threads i)) few) v b

      run-Balanced :
          (s : System lib) (events : List (Event lib))
          → length (run lib hash s events).calls < u64_limit
          → Inv lib s
          → Balanced lib m s
          → Balanced lib m (run lib hash s events)
      unfolding run
      run-Balanced s [] few v b = b
      run-Balanced s (e ∷ rest) few v b =
          run-Balanced (step lib hash s e) rest few (step-Inv lib hash s e v)
            (step-Balanced s e (omega (arith, run-calls hash (step lib hash s e) rest)) v b)

      -- After any interleaving from a new recorder the meter is balanced.
      pub run-fresh-Balanced :
          (threads now : ℕ) (events : List (Event lib))
          → length (run lib hash (fresh lib threads now) events).calls < u64_limit
          → Balanced lib m (run lib hash (fresh lib threads now) events)
      unfolding fresh
      run-fresh-Balanced threads now events few =
          run-Balanced (fresh lib threads now) events few (fresh-Inv lib threads now)
            (omega (arith, x.starts now, weigh-replicate m.owed threads idle x.rests))
