-- ===== src/Distributed/Controller/Gate.antt =====
-- The start gate of `ControllerJobState` (crates/distributed/src/state.rs): who runs, and since when.
use mcp_loadtest.Base.{
  ℕ, String, Bool, true, false, List, [], ◌∷◌, ◌++◌, Option, some, ok, ◌≡◌, refl, ap, ◌∙◌, ◌⊎◌, inl,
  inr, arith, Bool-cases, Option-cases, >>=-eq-ok,
}
use mcp_loadtest.Base.Order.{str_ord, same, same_iff}
use mcp_loadtest.Base.Map.{get, get-map_values, Every, Every-insert, Every-get}
use mcp_loadtest.Distributed.Wire.{WireFrame, WireMessage, PrepareFrame}
use mcp_loadtest.Distributed.Controller.Types.{Phase, AgentState, JobState, Signature, Handled}
use mcp_loadtest.Distributed.Controller.Types.Phase.{awaiting_hello, running, finished}
use mcp_loadtest.Distributed.Controller.{
  accept, start_all, cancel_all, cancel_phase, all_ready, new, enlist, enlisted,
}
use mcp_loadtest.Distributed.Controller.Moves.{
  Move, refused, lost, kept, greeted, readied, advanced, done, stopped, broke, accept_cases,
}
use mcp_loadtest.Distributed.Controller.Run.{Command, receive, start, cancel, step, run}
use mcp_loadtest.Distributed.Controller.Invariant.{enlist_ok}
use mcp_loadtest.Distributed.Controller.Later.{get-written}

abbrev pub has_load : Phase → Bool
has_load running = true
has_load finished = true
has_load _ = false

-- The agent is under load, or has been and finished.
pub record Loaded (name : String) (s : JobState) : Type 0 where
  pub entry : AgentState
  pub found : get name s.agents ≡ some entry
  pub load : has_load entry.phase ≡ true

-- Some call of `start_all` in the history found the whole cohort ready.
pub record Opened (s : JobState) (cs : List Command) : Type 0 where
  pub before : List Command
  pub after : List Command
  pub lead : ℕ
  pub split : cs ≡ before ++ start lead ∷ after
  pub cohort_ready : all_ready (run s before) ≡ true

-- No frame puts an agent under load.
Move-load :
    {job name : String} {sig : Option Signature} {a : AgentState} {m : WireMessage} {h : Handled}
    → Move job sig name a m h
    → has_load h.agent.phase ≡ true
    → has_load a.phase ≡ true
Move-load (refused e q) t = ground arith
Move-load (lost e p q) t = ground arith
Move-load (kept r q) t = ground arith
Move-load (greeted g m p q) t = ground arith
Move-load (readied r m p full agrees q) t = ground arith
Move-load (advanced r m p names newer q) t = ground arith
Move-load (done f m p names q) t = ground arith
Move-load (stopped c m p q) t = ground arith
Move-load (broke f m p own q) t = ground arith

accept-Loaded :
    (name : String) (s : JobState) (agent : String) (f : WireFrame)
    → Loaded name (accept s agent f).0
    → Loaded name s
accept-Loaded name s agent f =
    accept_cases (λ r. Loaded name r.0 → Loaded name s) s agent f (λ e l. l)
      λ a h present move l. elim (Bool-cases (same name agent)) [
        | inl own ↦ record {
          entry = a;
          found = ap (λ k. get k s.agents) ((same_iff name agent).0 own) ∙ present;
          load = Move-load move (
              ground
                (arith, l.found, l.load, own, get-written name agent s.agents h.agent present));
        }
        | inr other ↦ record {
          entry = l.entry;
          found = ground (arith, l.found, other, get-written name agent s.agents h.agent present);
          load = l.load;
        }
      ]

cancel_all-Loaded :
    (name : String) (s : JobState) (reason : String)
    → Loaded name (cancel_all s reason).0
    → Loaded name s
unfolding cancel_all
cancel_all-Loaded name s reason l = elim (Option-cases (get name s.agents)) [
  | inl absent ↦ absurd (
      ground (
        arith,
        l.found,
        absent,
        get-map_values (λ a. record a { phase = cancel_phase a.phase }) name s.agents,
      ))
  | inr (a, present) ↦ record {
    entry = a;
    found = present;
    load = ground (
      arith,
      l.found,
      l.load,
      present,
      get-map_values (λ a. record a { phase = cancel_phase a.phase }) name s.agents,
    );
  }
]

step-Loaded :
    (name : String) (s : JobState) (c : Command)
    → Loaded name (step s c)
    → Loaded name s ⊎ ((lead : ℕ) × (c ≡ start lead) × (all_ready s ≡ true))
unfolding step
step-Loaded name s (receive agent f) l = inl (accept-Loaded name s agent f l)
step-Loaded name s (cancel reason) l = inl (cancel_all-Loaded name s reason l)
step-Loaded name s (start lead) l = elim (Bool-cases (all_ready s)) [
  | inl full ↦ inr (lead, refl, full)
  | inr waiting ↦ inl (start_refused waiting l)
]
  where
    start_refused : all_ready s ≡ false → Loaded name (start_all s lead).0 → Loaded name s
    start_refused waiting = rw waiting (λ r. r)

-- An agent under load after a history was so before it, or the gate was opened in between.
pub run-Loaded :
    (name : String) (s : JobState) (cs : List Command)
    → Loaded name (run s cs)
    → Loaded name s ⊎ Opened s cs
unfolding run
run-Loaded name s [] l = inl l
run-Loaded name s (c ∷ cs) l = elim (run-Loaded name (step s c) cs l) [
  | inr o ↦ inr (record {
    before = c ∷ o.before;
    after = o.after;
    lead = o.lead;
    split = ap (◌∷◌ c) o.split;
    cohort_ready = o.cohort_ready;
  })
  | inl early ↦ elim (step-Loaded name s c early) [
    | inl before ↦ inl before
    | inr (lead, e, full) ↦ inr (record {
      before = [];
      after = cs;
      lead = lead;
      split = ap (λ d. d ∷ cs) e;
      cohort_ready = full;
    })
  ]
]

abbrev IsAwaiting : String → AgentState → Type 0
IsAwaiting name a = a.phase ≡ awaiting_hello

enlist-IsAwaiting :
    (job : String) (ps : List PrepareFrame) (m : List (String × AgentState))
    {m' : List (String × AgentState)}
    → Every IsAwaiting m
    → enlist job ps m ≡ ok m'
    → Every IsAwaiting m'
unfolding enlist
enlist-IsAwaiting job [] m e h = ground arith
enlist-IsAwaiting job (p ∷ ps) m e h =
    enlist-IsAwaiting job ps _ (Every-insert IsAwaiting _ (enlisted p) m e refl)
      (enlist_ok job p ps m h).2

new-IsAwaiting : (ps : List PrepareFrame) {s : JobState} → new ps ≡ ok s → Every IsAwaiting s.agents
unfolding new
new-IsAwaiting [] h = cc
new-IsAwaiting (p ∷ ps) h =
    let (m, enlisted, e) = >>=-eq-ok (enlist p.job_id (p ∷ ps) []) _ h in
    let entries : Every IsAwaiting m = enlist-IsAwaiting p.job_id (p ∷ ps) [] tt enlisted in
    ground arith

new-not-Loaded :
    (ps : List PrepareFrame) (name : String) {s : JobState} → new ps ≡ ok s → ¬ Loaded name s
new-not-Loaded ps name {s} h l =
    ground (arith, l.load, Every-get IsAwaiting name l.entry s.agents (new-IsAwaiting ps h) l.found)

-- The start gate: in a job fresh from `new`, whatever frames and cancellations arrive, an agent is
-- under load only if some `start_all` before it found every agent of the cohort ready.
pub gate :
    (ps : List PrepareFrame) (cs : List Command) (name : String) {s : JobState}
    → new ps ≡ ok s
    → Loaded name (run s cs)
    → Opened s cs
gate ps cs name {s} h l = elim (run-Loaded name s cs l) [
  | inl early ↦ absurd (new-not-Loaded ps name h early)
  | inr opened ↦ opened
]
