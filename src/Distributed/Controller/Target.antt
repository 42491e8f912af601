-- ===== src/Distributed/Controller/Target.antt =====
-- One target for the whole cohort: `ready_signature` of crates/distributed/src/state.rs.
use mcp_loadtest.Base.{
  String, List, [], ◌∷◌, Option, some, ok, ◌≡◌, ap, sym, ◌∙◌, inl, inr, arith, Bool-cases,
}
use mathlib.Core.Option.{some-injective}
use mcp_loadtest.Distributed.Wire.{WireFrame, WireMessage, ReadyFrame}
use mcp_loadtest.Distributed.Controller.Types.{AgentState, JobState, Signature, Handled}
use mcp_loadtest.Distributed.Controller.{accept, all_ready}
use mcp_loadtest.Distributed.Controller.Moves.{
  Move, refused, lost, kept, greeted, readied, advanced, done, stopped, broke, accept_cases,
  signature_of,
}
use mcp_loadtest.Distributed.Controller.Run.{Command, receive, start, cancel, step, run}

Move-signature :
    {job name : String} {sig : Option Signature} {a : AgentState} {m : WireMessage} {h : Handled}
    {t : Signature}
    → Move job sig name a m h
    → sig ≡ some t
    → h.signature ≡ some t
Move-signature (refused e q) k = ground arith
Move-signature (lost e p q) k = ground arith
Move-signature (kept r q) k = ground arith
Move-signature (greeted g m p q) k = ground arith
Move-signature (readied r m p full agrees q) k = ground arith
Move-signature (advanced r m p names newer q) k = ground arith
Move-signature (done f m p names q) k = ground arith
Move-signature (stopped c m p q) k = ground arith
Move-signature (broke f m p own q) k = ground arith

-- A signature, once there, is not replaced.
step-signature :
    (s : JobState) (c : Command) {t : Signature}
    → s.ready_signature ≡ some t
    → (step s c).ready_signature ≡ some t
unfolding step
step-signature s (receive agent f) {t} k =
    accept_cases (λ r. r.0.ready_signature ≡ some t) s agent f (λ e. k)
      λ a h present move. Move-signature move k
step-signature s (start lead) k = elim (Bool-cases (all_ready s)) [
  | inl full ↦ ground (arith, full)
  | inr waiting ↦ ground (arith, waiting)
]
step-signature s (cancel reason) k = k

pub run-signature :
    (s : JobState) (cs : List Command) {t : Signature}
    → s.ready_signature ≡ some t
    → (run s cs).ready_signature ≡ some t
unfolding run
run-signature s [] k = k
run-signature s (c ∷ cs) k = run-signature (step s c) cs (step-signature s c k)

Move-ready :
    {job name : String} {sig : Option Signature} {a : AgentState} {m : WireMessage} {h : Handled}
    (r : ReadyFrame) {o : Option WireFrame}
    → Move job sig name a m h
    → m ≡ WireMessage.ready r
    → h.reply ≡ ok o
    → h.signature ≡ some (signature_of r)
Move-ready r (refused e q) k t = ground arith
Move-ready r (lost e p q) k t = ground arith
Move-ready r (kept r' q) k t = ground arith
Move-ready r (greeted g m p q) k t = ground arith
Move-ready r (readied r' m p full agrees q) k t = ground arith
Move-ready r (advanced r' m p names newer q) k t = ground arith
Move-ready r (done f m p names q) k t = ground arith
Move-ready r (stopped c m p q) k t = ground arith
Move-ready r (broke f m p own q) k t = ground arith

accept-ready :
    (s : JobState) (agent : String) (f : WireFrame) (r : ReadyFrame) {o : Option WireFrame}
    → f.message ≡ WireMessage.ready r
    → (accept s agent f).1 ≡ ok o
    → (accept s agent f).0.ready_signature ≡ some (signature_of r)
accept-ready s agent f r {o} k =
    accept_cases (λ x. x.1 ≡ ok o → x.0.ready_signature ≡ some (signature_of r)) s agent f
      (λ e t. absurd (ground arith)) λ a h present move t. Move-ready r move k t

-- If two ready frames are accepted in the course of a job, from whichever agents and with whatever
-- calls in between, both name the same target revision and the same tool inventory.
pub same_target :
    (s : JobState) (agent other : String) (f g : WireFrame) (r q : ReadyFrame)
    (between : List Command) {o o' : Option WireFrame}
    → f.message ≡ WireMessage.ready r
    → g.message ≡ WireMessage.ready q
    → (accept s agent f).1 ≡ ok o
    → (accept (run (accept s agent f).0 between) other g).1 ≡ ok o'
    → (r.target_protocol_version ≡ q.target_protocol_version)
      × (r.tool_inventory_hash ≡ q.tool_inventory_hash)
unfolding step
same_target s agent other f g r q between m n first second =
    let s' = run (accept s agent f).0 between in
    let kept =
      step-signature s' (receive other g)
        (run-signature _ between (accept-ready s agent f r m first)) in
    let set = accept-ready s' other g q n second in
    let same : signature_of r ≡ signature_of q = some-injective _ _ (sym kept ∙ set) in
    (ap (λ t. t.0) same, ap (λ t. t.1) same)
