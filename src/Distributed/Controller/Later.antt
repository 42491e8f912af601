-- ===== src/Distributed/Controller/Later.antt =====
-- How one agent's entry of `ControllerJobState` (crates/distributed/src/state.rs) may change.
use mcp_loadtest.Base.{
  When, when, granted, ℕ, ◌≤◌, String, true, List, [], ◌∷◌, Option, none, some, ◌≡◌, refl, ap,
  arith, Bool-cases, inl, inr, all, if◌then◌else◌, ◌∙◌, sym,
}
use mathlib.Core.Option
use mathlib.Core.Option.{some-injective}
use mcp_loadtest.Base.Order.{str_ord, same, same_iff}
use mcp_loadtest.Base.Map.{get, get-update, update, get-map_values, values}
use mcp_loadtest.Distributed.Evidence.{AgentEvidence}
use mcp_loadtest.Distributed.Wire.{WireMessage, WireFrame}
use mcp_loadtest.Distributed.Controller.Types.{
  Phase, AgentState, JobState, Signature, Handled, is_ended, is_ready,
}
use mcp_loadtest.Distributed.Controller.Types.Phase.{
  awaiting_hello, preparing, ready, running, finished, failed, cancelling, cancelled,
}
use mcp_loadtest.Distributed.Controller.Handlers.{is_newer}
use mcp_loadtest.Distributed.Controller.{accept, start_all, cancel_all, cancel_phase, all_ready}
use mcp_loadtest.Distributed.Controller.Moves.{
  Move, refused, lost, kept, greeted, readied, advanced, done, stopped, broke, accept_cases,
}
use mcp_loadtest.Distributed.Controller.Run.{Command, receive, start, cancel, step, run}

-- How far an agent is: phases are left in this order only.
abbrev pub rank : Phase → ℕ
rank awaiting_hello = 0
rank preparing = 1
rank ready = 2
rank running = 3
rank cancelling = 4
rank finished = 5
rank failed = 5
rank cancelled = 5

-- The number of a checkpoint, counted from 1; 0 when there is none.
abbrev pub checkpoint : Option (ℕ × AgentEvidence) → ℕ
checkpoint none = 0
checkpoint (some (n, e)) = ℕ.suc n

-- What every later state `b` of an agent keeps of an earlier one `a`.
pub record Later (a b : AgentState) : Type 0 where
  pub same_prepare : b.prepare ≡ a.prepare
  pub forward : rank a.phase ≤ rank b.phase
  pub newer : checkpoint a.latest_progress ≤ checkpoint b.latest_progress
  pub absorbing : When (is_ended a.phase) (b ≡ a)

Later-refl : (a : AgentState) → Later a a
Later-refl a = record {
  same_prepare = refl;
  forward = omega arith;
  newer = omega arith;
  absorbing = when (is_ended a.phase) λ _. refl {a = a};
}

Later-trans : {a b c : AgentState} → Later a b → Later b c → Later a c
Later-trans {a} {b} {c} p q = record {
  same_prepare = q.same_prepare ∙ p.same_prepare;
  forward = omega arith;
  newer = omega arith;
  absorbing = when (is_ended a.phase) λ e.
      let stays : b ≡ a = granted (is_ended a.phase) p.absorbing e in
      let still : c ≡ b =
        granted (is_ended b.phase) q.absorbing
          (ap (λ (x : AgentState). is_ended x.phase) stays ∙ e) in
      still ∙ stays;
}

Move-Later :
    {job name : String} {sig : Option Signature} {a : AgentState} {m : WireMessage} {h : Handled}
    → Move job sig name a m h
    → Later a h.agent
unfolding is_newer
Move-Later {a} (refused e q) = rw q (Later-refl a)
Move-Later (lost e p q) = ground arith
Move-Later {a} (kept r q) = rw q (Later-refl a)
Move-Later (greeted g m p q) = ground arith
Move-Later (readied r m p full agrees q) = ground arith
Move-Later (advanced r m p names newer q) = ground arith
Move-Later (done f m p names q) = ground arith
Move-Later (stopped c m p q) = ground arith
Move-Later (broke f m p own q) = ground arith

started-Later : (a : AgentState) → is_ready a.phase ≡ true → Later a (record a { phase = running })
started-Later a r = ground arith

cancelled-Later : (a : AgentState) → Later a (record a { phase = cancel_phase a.phase })
cancelled-Later a = ground arith

-- An agent of the job is there after a call, in a later state.
abbrev pub Keeps : JobState → JobState → Type 0
Keeps s t =
    (name : String) (a : AgentState)
    → get name s.agents ≡ some a
    → (b : AgentState) × (get name t.agents ≡ some b) × Later a b

-- A write at a name that is there, read back at any name.
pub get-written :
    (name agent : String) (m : List (String × AgentState)) {a : AgentState} (b : AgentState)
    → get agent m ≡ some a
    → get name (update agent b m) ≡ (if same name agent then some b else get name m)
get-written name agent m b present = get-update name agent b m (λ e. ground arith)

commit-Keeps :
    (s : JobState) (agent : String) (a b : AgentState)
    → get agent s.agents ≡ some a
    → Later a b
    → Keeps s (record s { agents = update agent b s.agents })
commit-Keeps s agent a b present later name c there = elim (Bool-cases (same name agent)) [
  | inl own ↦
      let key : name ≡ agent = (same_iff name agent).0 own in
      let old : c ≡ a = some-injective c a (sym there ∙ ap (λ k. get k s.agents) key ∙ present) in
      (b, get-written name agent s.agents b present ∙ rw own refl, rw old later)
  | inr other ↦ (c, get-written name agent s.agents b present ∙ rw other there, Later-refl c)
]

accept-Keeps : (s : JobState) (agent : String) (f : WireFrame) → Keeps s (accept s agent f).0
accept-Keeps s agent f =
    accept_cases (λ r. Keeps s r.0) s agent f (λ e name a h. (a, h, Later-refl a))
      λ a h present move. commit-Keeps s agent a h.agent present (Move-Later move)

pub all_ready-get :
    (m : List (String × AgentState)) (name : String) (a : AgentState)
    → all (λ b. is_ready b.phase) (values m) ≡ true
    → get name m ≡ some a
    → is_ready a.phase ≡ true
unfolding get
all_ready-get [] name a r h = cc
all_ready-get ((k, b) ∷ m) name a r h = ground (arith, all_ready-get m name a)

start_all-Keeps : (s : JobState) (lead : ℕ) → Keeps s (start_all s lead).0
unfolding start_all all_ready
start_all-Keeps s lead name a h = elim (Bool-cases (all_ready s)) [
  | inr waiting ↦ rw waiting (a, h, Later-refl a)
  | inl full ↦ rw full (
    record a { phase = running },
    get-map_values _ name s.agents ∙ ap (Option.map _) h,
    started-Later a (all_ready-get s.agents name a full h),
  )
]

cancel_all-Keeps : (s : JobState) (reason : String) → Keeps s (cancel_all s reason).0
unfolding cancel_all
cancel_all-Keeps s reason name a h = (
  record a { phase = cancel_phase a.phase },
  get-map_values _ name s.agents ∙ ap (Option.map _) h,
  cancelled-Later a,
)

step-Keeps : (s : JobState) (c : Command) → Keeps s (step s c)
unfolding step
step-Keeps s (receive agent f) = accept-Keeps s agent f
step-Keeps s (start lead) = start_all-Keeps s lead
step-Keeps s (cancel reason) = cancel_all-Keeps s reason

run-Later : (s : JobState) (cs : List Command) → Keeps s (run s cs)
unfolding run
run-Later s [] name a h = (a, h, Later-refl a)
run-Later s (c ∷ cs) name a h =
    let (b, there, first) = step-Keeps s c name a h in
    let (d, still, rest) = run-Later (step s c) cs name b there in
    (d, still, Later-trans first rest)

-- Over any history an agent of the job stays in it under the frame that it was prepared with, its
-- phase and its checkpoint number never go back, and once it has ended nothing of its entry changes.
pub run-Keeps :
    (s : JobState) (cs : List Command) (name : String) (a : AgentState)
    → get name s.agents ≡ some a
    → (b : AgentState) × (get name (run s cs).agents ≡ some b) × Later a b
run-Keeps s cs name a h = run-Later s cs name a h
