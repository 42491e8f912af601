-- ===== src/Distributed/Controller/Cancel.antt =====
-- Cancellation drains the cohort: `cancel_all` of crates/distributed/src/state.rs.
use mcp_loadtest.Base.{
  String, true, List, [], ◌∷◌, Option, none, some, ◌≡◌, ◌≢◌, refl, ap, sym, ◌∙◌, ◌⊎◌, inl, inr,
  arith, Bool-cases, Option-cases, all, any, str_eq, str_eq_iff,
}
use mcp_loadtest.Base.Order.{str_ord, same, same_iff}
use mcp_loadtest.Base.Map.{get, keys, values, Every, Every-of_get, get-map_values}
use mcp_loadtest.Distributed.Wire.{WireFrame, WireMessage, frame}
use mcp_loadtest.Distributed.Controller.Types.{AgentState, JobState, Phase, is_ended, Signature}
use mcp_loadtest.Distributed.Controller.Types.Phase.{finished, failed, cancelling, cancelled}
use mcp_loadtest.Distributed.Controller.Handlers.{dispatch}
use mcp_loadtest.Distributed.Controller.{
  accept, cancel_all, cancel_frames, cancel_frame, cancel_phase, wants_cancel, is_terminal,
}
use mcp_loadtest.Distributed.Controller.Invariant.{Inv, run-Inv, cancel_all-Inv}
use mcp_loadtest.Distributed.Controller.Run.{Command, receive, step, run}
use mcp_loadtest.Distributed.Controller.Moves.{accept_cases, accept_known}
use mcp_loadtest.Distributed.Controller.Later.{get-written}
use mcp_loadtest.Distributed.Controller.Frames.{accept-others}

abbrev pub ack : String → String → WireFrame
ack job reason = frame (WireMessage.cancelled (record { job_id = job; reason = reason }))

-- The acknowledgements of these agents, one after the other.
abbrev pub acks : String → String → List String → List Command
acks job reason [] = []
acks job reason (n ∷ ns) = receive n (ack job reason) ∷ acks job reason ns

-- Whoever has not ended is being cancelled, and stands on the list.
abbrev Draining : List String → JobState → Type 0
Draining ns s =
    (name : String) (a : AgentState)
    → get name s.agents ≡ some a
    → (is_ended a.phase ≡ true) ⊎ ((a.phase ≡ cancelling) × (any (str_eq name) ns ≡ true))

abbrev CanEnd : Phase → Type 0
CanEnd p = (is_ended p ≡ true) ⊎ (p ≡ cancelling)

ack-ends :
    (p : Phase) (job reason : String) (sig : Option Signature) (name : String) (a : AgentState)
    → a.phase ≡ p
    → CanEnd p
    → is_ended (dispatch p (ack job reason).message job sig name a).agent.phase ≡ true
unfolding dispatch
ack-ends cancelling job reason sig name a e c = ground (arith, str_eq_iff job job)
ack-ends finished job reason sig name a e c = ap is_ended e
ack-ends failed job reason sig name a e c = ap is_ended e
ack-ends cancelled job reason sig name a e c = ap is_ended e
ack-ends _ job reason sig name a e c = absurd (ground arith)

ack-entry :
    (s : JobState) (reason name : String) (a b : AgentState)
    → get name s.agents ≡ some a
    → CanEnd a.phase
    → get name (accept s name (ack s.job_id reason)).0.agents ≡ some b
    → is_ended b.phase ≡ true
ack-entry s reason name a b found c there =
    let next = dispatch a.phase (ack s.job_id reason).message s.job_id s.ready_signature name a in
    let is : next.agent ≡ b = ground (
      arith,
      accept_known s name a (ack s.job_id reason) refl found,
      get-written name name s.agents next.agent found,
      same_iff name name,
    ) in
    rw (← is) (ack-ends a.phase s.job_id reason s.ready_signature name a refl c)

absent-after :
    (s : JobState) (name : String) (f : WireFrame)
    → get name s.agents ≡ none
    → get name (accept s name f).0.agents ≡ none
absent-after s name f absent =
    accept_cases (λ r. get name r.0.agents ≡ none) s name f (λ e. absent)
      λ a h found move. absurd (ground arith)

ack-Draining :
    (ns : List String) (s : JobState) (reason name : String)
    → Draining (name ∷ ns) s
    → Draining ns (accept s name (ack s.job_id reason)).0
ack-Draining ns s reason name d other b found = elim (Bool-cases (same other name)) [
  | inr differs ↦
      let apart : other ≢ name = λ e. ground (arith, same_iff other name) in
      ground (
        arith,
        d other b (sym (accept-others s name other (ack s.job_id reason) apart) ∙ found),
        str_eq_iff other name,
        apart,
      )
  | inl own ↦
      let key : other ≡ name = (same_iff other name).0 own in
      elim (Option-cases (get name s.agents)) [
        | inl absent ↦ absurd (
            ground (
              arith,
              absent-after s name (ack s.job_id reason) absent,
              ap (λ k. get k (accept s name (ack s.job_id reason)).0.agents) key,
            ))
        | inr (a, there) ↦ inl (
            ack-entry s reason name a b there (ground (arith, d name a there))
              (ap (λ k. get k (accept s name (ack s.job_id reason)).0.agents) (sym key) ∙ found))
      ]
]

accept-job :
    (s : JobState) (agent : String) (f : WireFrame) → (accept s agent f).0.job_id ≡ s.job_id
accept-job s agent f =
    accept_cases (λ r. r.0.job_id ≡ s.job_id) s agent f (λ e. refl) λ a h found m. refl

acks-Draining :
    (ns : List String) (s : JobState) (job reason : String)
    → s.job_id ≡ job
    → Draining ns s
    → Draining [] (run s (acks job reason ns))
unfolding run step
acks-Draining [] s job reason e d = d
acks-Draining (n ∷ ns) s job reason e d =
    acks-Draining ns _ job reason (accept-job s n (ack job reason) ∙ e)
      (rw (← e) (ack-Draining ns s reason n d))

listed :
    (f : WireFrame) (name : String) (a : AgentState) (m : List (String × AgentState))
    → get name m ≡ some a
    → wants_cancel a.phase ≡ true
    → any (str_eq name) (keys (cancel_frames f m)) ≡ true
unfolding get
listed f name a [] found w = absurd (ground arith)
listed f name a ((k, b) ∷ m) found w =
    ground (arith, listed f name a m, str_eq_iff name k, same_iff name k)

cancel_all-Draining :
    (s : JobState) (reason : String)
    → Draining (keys (cancel_all s reason).1) (cancel_all s reason).0
unfolding cancel_all
cancel_all-Draining s reason name b found = elim (Option-cases (get name s.agents)) [
  | inl absent ↦ absurd (
      ground (arith, get-map_values (λ a. record a { phase = cancel_phase a.phase }) name s.agents))
  | inr (a, there) ↦ ground (
    arith,
    get-map_values (λ a. record a { phase = cancel_phase a.phase }) name s.agents,
    listed (cancel_frame s.job_id reason) name a s.agents there,
  )
]

all_ended :
    (m : List (String × AgentState))
    → Every (λ name a. is_ended a.phase ≡ true) m
    → all (λ a. is_ended a.phase) (values m) ≡ true
all_ended [] e = refl
all_ended ((name, a) ∷ m) e = ground (arith, all_ended m e.1)

-- After `cancel_all`, the acknowledgements of the agents that it sent a frame to, in the order of
-- the frames, leave the job terminal.
pub cancel_all-terminates :
    (s : JobState) (reason answer : String)
    → Inv s
    → is_terminal
        (run (cancel_all s reason).0 (acks s.job_id answer (keys (cancel_all s reason).1)))
      ≡ true
unfolding is_terminal cancel_all
cancel_all-terminates s reason answer v =
    let ns = keys (cancel_all s reason).1 in
    let d =
      acks-Draining ns (cancel_all s reason).0 s.job_id answer refl
        (cancel_all-Draining s reason) in
    let t = run (cancel_all s reason).0 (acks s.job_id answer ns) in
    let sorted =
      (run-Inv (cancel_all s reason).0 (acks s.job_id answer ns)
        (cancel_all-Inv s reason v)).sorted in
    all_ended t.agents (
      Every-of_get (λ name a. is_ended a.phase ≡ true) t.agents sorted
        λ name a found. ground (arith, d name a found))
