-- ===== src/Distributed/Controller/Sent.antt =====
-- Whom the frames of `start_all` and `cancel_all` (crates/distributed/src/state.rs) are addressed to.
use mcp_loadtest.Base.{
  String, true, List, [], ◌∷◌, Option, none, some, ◌≡◌, refl, ap, ◌∙◌, inl, inr, arith, Bool-cases,
  if◌then◌else◌, all,
}
use mathlib.Core.Option
use mcp_loadtest.Base.Order.{str_ord, same, same_iff}
use mcp_loadtest.Base.Map.{get, get-Above, IsSorted, Every, values}
use mcp_loadtest.Distributed.Wire.{WireFrame}
use mcp_loadtest.Distributed.Controller.Types.{AgentState, JobState, is_ready}
use mcp_loadtest.Distributed.Controller.Types.Phase.{ready}
use mcp_loadtest.Distributed.Controller.{address, cancel_frames, wants_cancel, all_ready}

pub get-address :
    (name : String) (f : WireFrame) (m : List (String × AgentState))
    → get name (address f m) ≡ Option.map (λ (a : AgentState). f) (get name m)
unfolding get
get-address name f [] = refl
get-address name f ((k, a) ∷ m) = ground (arith, get-address name f m)

-- The frame of an agent that wants one.
abbrev pub frame_for : WireFrame → Option AgentState → Option WireFrame
frame_for f none = none
frame_for f (some a) = if wants_cancel a.phase then some f else none

pub get-cancel_frames :
    (name : String) (f : WireFrame) (m : List (String × AgentState))
    → IsSorted m
    → get name (cancel_frames f m) ≡ frame_for f (get name m)
unfolding get
get-cancel_frames name f [] s = refl
get-cancel_frames name f ((k, a) ∷ m) s = elim (Bool-cases (same name k)) [
  | inl own ↦
      let gone : get name m ≡ none =
        ap (λ i. get i m) ((same_iff name k).0 own) ∙ get-Above k m s.1 s.0 in
      ground (arith, own, gone, get-cancel_frames name f m s.1)
  | inr other ↦ ground (arith, other, get-cancel_frames name f m s.1)
]

-- A cohort that is all ready.
abbrev pub AllReady : JobState → Type 0
AllReady s = Every (λ name a. a.phase ≡ ready) s.agents

all-ready :
    (m : List (String × AgentState))
    → Every (λ name a. a.phase ≡ ready) m
    → all (λ a. is_ready a.phase) (values m) ≡ true
all-ready [] e = refl
all-ready ((name, a) ∷ m) e = rw (e.0) (all-ready m e.1)

pub all_ready-AllReady : (s : JobState) → AllReady s → all_ready s ≡ true
unfolding all_ready
all_ready-AllReady s e = all-ready s.agents e
