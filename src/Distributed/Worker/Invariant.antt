-- ===== src/Distributed/Worker/Invariant.antt =====
-- What holds of `AgentStateMachine` (crates/distributed/src/state.rs) between two calls.
use mcp_loadtest.Base.{
  is_some, When, ℕ, ◌≤◌, String, Bool, true, false, List, [], ◌∷◌, Option, none, some, ◌≡◌, refl,
  arith, str_eq, str_eq_iff, inl, inr, Bool-cases,
}
use mcp_loadtest.Distributed.Wire.{
  HelloFrame, ReadyFrame, PrepareFrame, WireFrame, WireMessage, wire_protocol,
}
use mcp_loadtest.Distributed.Evidence.{AgentEvidence}
use mcp_loadtest.Distributed.Worker.Types.{Phase, Machine, Error}
use mcp_loadtest.Distributed.Worker.Types.Phase.{
  awaiting_prepare, preparing, ready, running, finished, failed, cancelling, cancelled,
}
use mcp_loadtest.Distributed.Worker.{
  new, accept, dispatch, mark_ready, finish, fail, cancelled_ack, on_prepare,
}
use mcp_loadtest.Distributed.Worker.Run.{
  Call, accepts, marks_ready, finishes, fails, acknowledges, step, run, failure,
}

abbrev Pinned : Option String → String → Type 0
Pinned none name = Unit
Pinned (some own) name = own ≡ name

abbrev BoundTo : Option String → Option String → Option String → Type 0
BoundTo own (some job) (some name) = Pinned own name
BoundTo own _ _ = ⊥

-- Before the preparation there is no job; from then on there are a job and a name, and the name is
-- the one that the worker was pinned to, if it was.
abbrev pub Facts : Phase → Machine → Type 0
Facts awaiting_prepare m = (m.job_id ≡ none) × (m.bound_agent_name ≡ none)
Facts _ m = BoundTo m.hello.agent_name m.job_id m.bound_agent_name

pub record Inv (m : Machine) : Type 0 where
  pub facts : Facts m.phase m

pub new-Inv : (g : HelloFrame) → Inv (new g)
unfolding new
new-Inv g = ground arith

abbrev pub rank : Phase → ℕ
rank awaiting_prepare = 0
rank preparing = 1
rank ready = 2
rank running = 3
rank cancelling = 4
rank finished = 5
rank failed = 5
rank cancelled = 5

abbrev pub is_bound : Phase → Bool
is_bound awaiting_prepare = false
is_bound _ = true

-- What a call keeps: the greeting; the job and the name, once bound; the phase goes forward; and a
-- call that fails leaves the machine as it was.
pub record Keeps (m n : Machine) (failure : Option Error) : Type 0 where
  pub same_hello : n.hello ≡ m.hello
  pub same_job : When (is_bound m.phase) (n.job_id ≡ m.job_id)
  pub same_name : When (is_bound m.phase) (n.bound_agent_name ≡ m.bound_agent_name)
  pub forward : rank m.phase ≤ rank n.phase
  pub untouched : When (is_some failure) (n ≡ m)

prepare-Inv :
    (own : Option String) (q : PrepareFrame) (m : Machine)
    → m.hello.agent_name ≡ own
    → Inv m
    → Inv (on_prepare m q).0
unfolding on_prepare
prepare-Inv none q m e v = ground arith
prepare-Inv (some name) q m e v = ground (arith, str_eq_iff name q.shard.agent_name)

dispatch-Inv :
    (p : Phase) (msg : WireMessage) (m : Machine) → m.phase ≡ p → Inv m → Inv (dispatch p msg m).0
unfolding dispatch
dispatch-Inv awaiting_prepare (WireMessage.prepare q) m e v =
    prepare-Inv m.hello.agent_name q m refl v
dispatch-Inv ready (WireMessage.start s) m e v = ground (arith, v.facts)
dispatch-Inv preparing (WireMessage.cancel s) m e v = ground (arith, v.facts)
dispatch-Inv ready (WireMessage.cancel s) m e v = ground (arith, v.facts)
dispatch-Inv running (WireMessage.cancel s) m e v = ground (arith, v.facts)
dispatch-Inv cancelling (WireMessage.cancel s) m e v = ground (arith, v.facts)
dispatch-Inv _ _ m e v = v

accept-Inv : (m : Machine) (f : WireFrame) → Inv m → Inv (accept m f).0
unfolding accept
accept-Inv m f v = elim (Bool-cases (str_eq f.protocol wire_protocol)) [
  | inl own ↦ rw own (dispatch-Inv m.phase f.message m refl v)
  | inr other ↦ rw other v
]

mark_ready-Inv : (m : Machine) (r : ReadyFrame) → Inv m → Inv (mark_ready m r).0
unfolding mark_ready
mark_ready-Inv m r v = ground (arith, v.facts)

finish-Inv : (m : Machine) (e : AgentEvidence) → Inv m → Inv (finish m e).0
unfolding finish
finish-Inv m e v = ground (arith, v.facts)

fail-Inv : (m : Machine) (code text : String) (b : Bool) → Inv m → Inv (fail m code text b).0
unfolding fail
fail-Inv m code text b v = ground (arith, v.facts)

ack-Inv : (m : Machine) (why : String) → Inv m → Inv (cancelled_ack m why).0
unfolding cancelled_ack
ack-Inv m why v = ground (arith, v.facts)

step-Inv : (m : Machine) (c : Call) → Inv m → Inv (step m c).0
unfolding step
step-Inv m (accepts f) v = accept-Inv m f v
step-Inv m (marks_ready r) v = mark_ready-Inv m r v
step-Inv m (finishes e) v = finish-Inv m e v
step-Inv m (fails c t b) v = fail-Inv m c t b v
step-Inv m (acknowledges why) v = ack-Inv m why v

run-Inv : (m : Machine) (cs : List Call) → Inv m → Inv (run m cs)
unfolding run
run-Inv m [] v = v
run-Inv m (c ∷ cs) v = run-Inv (step m c).0 cs (step-Inv m c v)

-- A worker fresh from `new` has no job until it is prepared, and from then on has both a job and a
-- name, which is the name that it was pinned to if it was, whatever calls are made.
pub calls-new-Inv : (g : HelloFrame) (cs : List Call) → Inv (run (new g) cs)
calls-new-Inv g cs = run-Inv (new g) cs (new-Inv g)

dispatch-Keeps :
    (p : Phase) (msg : WireMessage) (m : Machine)
    → m.phase ≡ p
    → Keeps m (dispatch p msg m).0 (failure (dispatch p msg m).1)
unfolding dispatch
dispatch-Keeps awaiting_prepare (WireMessage.prepare q) m e = ground arith
dispatch-Keeps ready (WireMessage.start s) m e = ground arith
dispatch-Keeps preparing (WireMessage.cancel s) m e = ground arith
dispatch-Keeps ready (WireMessage.cancel s) m e = ground arith
dispatch-Keeps running (WireMessage.cancel s) m e = ground arith
dispatch-Keeps cancelling (WireMessage.cancel s) m e = ground arith
dispatch-Keeps _ _ m e = ground arith

accept-Keeps : (m : Machine) (f : WireFrame) → Keeps m (accept m f).0 (failure (accept m f).1)
unfolding accept
accept-Keeps m f = elim (Bool-cases (str_eq f.protocol wire_protocol)) [
  | inl own ↦ rw own (dispatch-Keeps m.phase f.message m refl)
  | inr other ↦ rw other (ground arith)
]

-- A call on a machine that keeps the invariant goes forward in the phases, never changes the
-- greeting, nor the job and the name once they are bound, and leaves the machine untouched if it
-- fails.
pub step-Keeps : (m : Machine) (c : Call) → Inv m → Keeps m (step m c).0 (step m c).1
unfolding step
step-Keeps m (accepts f) v = accept-Keeps m f
step-Keeps m (marks_ready r) v = ground (arith, v.facts)
step-Keeps m (finishes e) v = ground (arith, v.facts)
step-Keeps m (fails c t b) v = ground (arith, v.facts)
step-Keeps m (acknowledges why) v = ground (arith, v.facts)
