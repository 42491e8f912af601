-- ===== src/Core/Recorder/Shapes.antt =====
-- While threads record, each histogram keeps its shards and no entry of a tool goes away.
use mcp_loadtest.Base.{
  ℕ, List, String, Option, none, some, ◌≡◌, ◌≢◌, refl, arith, length, ◌%◌, inl, inr, Bool-cases,
  get_elem?, length-modify, All-modify, All-map, get_elem?-All, All-replicate, ◌∙◌,
}
use mcp_loadtest.Base.Map.{get, get-insert, get-update, get-nil, insert, update}
use mcp_loadtest.Base.Order.{str_ord, same, same_iff}
use mcp_loadtest.Core.Metrics.{CallOutcome, contributes_to_latency}
use mcp_loadtest.Core.Recorder.{
  Hdr, Recorder, PerToolState, new_tool, num_shards, record_us, measure_latency, Shards,
}
use mcp_loadtest.Core.Recorder.Threads.{
  Call, Pc, idle, counted, recorded, missed, found, tool_counted, System, Event, begin, go, act,
  count_call, step, fresh, look_up, enter_tool, on_tool, returned, begin_at, go_at,
}
use mcp_loadtest.Core.Recorder.Meters.{Shaped, Holds, Inv}

module _ (lib : Hdr) where
  length-measure_latency :
      (hash duration : ℕ) (outcome : CallOutcome) (shards : Shards lib)
      → length (measure_latency lib hash duration outcome shards) ≡ length shards
  unfolding record_us
  length-measure_latency hash duration outcome shards =
      elim (Bool-cases (contributes_to_latency outcome)) [
        | inl h ↦ rw h (length-modify (hash % num_shards) _ shards)
        | inr h ↦ rw h refl
      ]

  -- Every state of a tool has its shards.
  abbrev Tools : List (String × PerToolState lib) → Type 0
  Tools m =
      (name : String) (s : PerToolState lib) → get name m ≡ some s → length s.latency ≡ num_shards

  insert-Tools :
      (k : String) (v : PerToolState lib) (m : List (String × PerToolState lib))
      → length v.latency ≡ num_shards
      → Tools m
      → Tools (insert k v m)
  insert-Tools k v m h t name s e = elim (Bool-cases (same name k)) [
    | inl i ↦ ground (arith, get-insert name k v m)
    | inr i ↦ t name s (ground (arith, get-insert name k v m))
  ]

  update-Tools :
      (k : String) (v : PerToolState lib) (m : List (String × PerToolState lib))
      → get k m ≢ none
      → length v.latency ≡ num_shards
      → Tools m
      → Tools (update k v m)
  update-Tools k v m there h t name s e = elim (Bool-cases (same name k)) [
    | inl i ↦ ground (arith, get-update name k v m there)
    | inr i ↦ t name s (ground (arith, get-update name k v m there))
  ]

  enter_tool-Shaped :
      (now : ℕ) (name : String) (r : Recorder lib) (o : Option (PerToolState lib))
      → Shaped lib r
      → Shaped lib (enter_tool lib now name r o)
  enter_tool-Shaped now name r (some s) h = h
  enter_tool-Shaped now name r none h = record {
    global = h.global;
    tools = insert-Tools name _ r.per_tool refl h.tools;
  }

  on_tool-Shaped :
      (name : String) (f : PerToolState lib → PerToolState lib) (r : Recorder lib)
      (o : Option (PerToolState lib))
      → get name r.per_tool ≡ o
      → ((s : PerToolState lib) → length (f s).latency ≡ length s.latency)
      → Shaped lib r
      → Shaped lib (on_tool lib name f r o)
  on_tool-Shaped name f r none e keep h = h
  on_tool-Shaped name f r (some s) e keep h = record {
    global = h.global;
    tools = update-Tools name (f s) r.per_tool (ground arith) (keep s ∙ h.tools name s e) h.tools;
  }

  pub act-Shaped :
      (hash now : ℕ) (r : Recorder lib) (p : Pc)
      → Shaped lib r
      → Shaped lib (act lib hash now r p).0
  unfolding act
  act-Shaped hash now r idle h = h
  act-Shaped hash now r (counted c) h = record {
    global = length-measure_latency hash c.duration c.outcome r.latency ∙ h.global;
    tools = h.tools;
  }
  act-Shaped hash now r (recorded name c) h = h
  act-Shaped hash now r (missed name c) h = enter_tool-Shaped now name r _ h
  act-Shaped hash now r (found name c) h = on_tool-Shaped name _ r _ refl (λ s. refl) h
  act-Shaped hash now r (tool_counted name c) h =
      on_tool-Shaped name _ r _ refl
        (λ s. length-measure_latency hash c.duration c.outcome s.latency) h

  enter_tool-persists :
      (j name : String) (now : ℕ) (r : Recorder lib) (o : Option (PerToolState lib))
      → get j r.per_tool ≢ none
      → get j (enter_tool lib now name r o).per_tool ≢ none
  enter_tool-persists j name now r (some s) h = h
  enter_tool-persists j name now r none h =
      ground (arith, get-insert j name (new_tool lib now) r.per_tool)

  on_tool-persists :
      (j name : String) (f : PerToolState lib → PerToolState lib) (r : Recorder lib)
      (o : Option (PerToolState lib))
      → get name r.per_tool ≡ o
      → get j r.per_tool ≢ none
      → get j (on_tool lib name f r o).per_tool ≢ none
  on_tool-persists j name f r none e h = h
  on_tool-persists j name f r (some s) e h = ground (arith, get-update j name (f s) r.per_tool)

  persists :
      (j : String) (hash now : ℕ) (r : Recorder lib) (p : Pc)
      → get j r.per_tool ≢ none
      → get j (act lib hash now r p).0.per_tool ≢ none
  unfolding act
  persists j hash now r idle h = h
  persists j hash now r (counted c) h = h
  persists j hash now r (recorded name c) h = h
  persists j hash now r (missed name c) h = enter_tool-persists j name now r _ h
  persists j hash now r (found name c) h = on_tool-persists j name _ r _ refl h
  persists j hash now r (tool_counted name c) h = on_tool-persists j name _ r _ refl h

  others :
      (hash now : ℕ) (r : Recorder lib) (p q : Pc)
      → Holds lib r q
      → Holds lib (act lib hash now r p).0 q
  others hash now r p idle h = tt
  others hash now r p (counted c) h = tt
  others hash now r p (recorded name c) h = tt
  others hash now r p (missed name c) h = tt
  others hash now r p (found name c) h = persists name hash now r p h
  others hash now r p (tool_counted name c) h = persists name hash now r p h

  returned-Holds :
      (r : Recorder lib) (c : Call) (tool : Option String) → Holds lib r (returned lib c tool)
  returned-Holds r c none = tt
  returned-Holds r c (some name) = tt

  look_up-Holds :
      (r : Recorder lib) (name : String) (c : Call) (o : Option (PerToolState lib))
      → get name r.per_tool ≡ o
      → Holds lib r (look_up lib name c o)
  look_up-Holds r name c none e = tt
  look_up-Holds r name c (some s) e = ground arith

  entered :
      (name : String) (now : ℕ) (r : Recorder lib) (o : Option (PerToolState lib))
      → get name r.per_tool ≡ o
      → get name (enter_tool lib now name r o).per_tool ≢ none
  entered name now r (some s) e = ground arith
  entered name now r none e =
      ground (arith, get-insert name name (new_tool lib now) r.per_tool, same_iff name name)

  own :
      (hash now : ℕ) (r : Recorder lib) (p : Pc)
      → Holds lib r p
      → Holds lib (act lib hash now r p).0 (act lib hash now r p).1
  unfolding act
  own hash now r idle h = tt
  own hash now r (counted c) h = returned-Holds (act lib hash now r (counted c)).0 c c.tool
  own hash now r (recorded name c) h = look_up-Holds r name c _ refl
  own hash now r (missed name c) h = entered name now r _ refl
  own hash now r (found name c) h = on_tool-persists name name _ r _ refl h
  own hash now r (tool_counted name c) h = tt

  count_call-Holds :
      (c : Call) (r : Recorder lib) (q : Pc) → Holds lib r q → Holds lib (count_call lib c r) q
  unfolding count_call
  count_call-Holds c r idle h = h
  count_call-Holds c r (counted d) h = h
  count_call-Holds c r (recorded name d) h = h
  count_call-Holds c r (missed name d) h = h
  count_call-Holds c r (found name d) h = h
  count_call-Holds c r (tool_counted name d) h = h

  begin_at-Inv :
      (i : ℕ) (c : Call) (s : System lib) (o : Option Pc)
      → Inv lib s
      → Inv lib (begin_at lib i c s o)
  unfolding count_call
  begin_at-Inv i c s none v = v
  begin_at-Inv i c s (some idle) v = record {
    shaped = record { global = v.shaped.global; tools = v.shaped.tools };
    holding =
        All-modify _ i (counted c) s.threads
          (All-map _ _ s.threads (count_call-Holds c s.recorder) v.holding) tt;
  }
  begin_at-Inv i c s (some (counted d)) v = v
  begin_at-Inv i c s (some (recorded name d)) v = v
  begin_at-Inv i c s (some (missed name d)) v = v
  begin_at-Inv i c s (some (found name d)) v = v
  begin_at-Inv i c s (some (tool_counted name d)) v = v

  go_at-Inv :
      (hash now i : ℕ) (s : System lib) (o : Option Pc)
      → get_elem? s.threads i ≡ o
      → Inv lib s
      → Inv lib (go_at lib hash now i s o)
  go_at-Inv hash now i s none e v = v
  go_at-Inv hash now i s (some p) e v = record {
    shaped = act-Shaped hash now s.recorder p v.shaped;
    holding =
        All-modify _ i _ s.threads (All-map _ _ s.threads (others hash now s.recorder p) v.holding)
          (own hash now s.recorder p (get_elem?-All _ i s.threads v.holding e));
  }

  pub step-Inv :
      (hash : ℕ → ℕ) (s : System lib) (e : Event lib) → Inv lib s → Inv lib (step lib hash s e)
  unfolding step
  step-Inv hash s (begin i c) v = begin_at-Inv i c s _ v
  step-Inv hash s (go i now) v = go_at-Inv (hash i) now i s _ refl v

  pub fresh-Inv : (threads now : ℕ) → Inv lib (fresh lib threads now)
  unfolding fresh
  fresh-Inv threads now = record {
    shaped = record {
      global = refl;
      tools = λ name s e. absurd (ground (arith, get-nil {V = PerToolState lib} name));
    };
    holding = All-replicate _ threads idle tt;
  }
