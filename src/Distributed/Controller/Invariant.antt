-- ===== src/Distributed/Controller/Invariant.antt =====
-- What holds of `ControllerJobState` (crates/distributed/src/state.rs) between two calls.
use mcp_loadtest.Base.{
  is_some, ℕ, String, true, List, [], ◌∷◌, Option, none, some, ok, ◌≡◌, refl, arith, str_eq_iff,
  all, Bool-cases, >>=-eq-ok, inl, inr,
}
use mcp_loadtest.Base.Order.{str_ord}
use mcp_loadtest.Base.Map.{
  get, insert, map_values, IsSorted, Every, Every-update, Every-get, Every-map, Every-map_values,
  Every-insert, values, update-IsSorted, insert-IsSorted, map_values-IsSorted,
}
use mcp_loadtest.Distributed.Evidence.{AgentEvidence}
use mcp_loadtest.Distributed.Wire.{WireMessage, PrepareFrame, WireFrame}
use mcp_loadtest.Distributed.Controller.Types.{
  Phase, AgentState, JobState, Signature, Handled, is_ready,
}
use mcp_loadtest.Distributed.Controller.Types.Phase.{
  awaiting_hello, preparing, ready, running, finished, failed, cancelling, cancelled,
}
use mcp_loadtest.Distributed.Controller.{
  accept, new, enlist, enlisted, start_all, cancel_all, cancel_phase, all_ready,
}
use mcp_loadtest.Distributed.Controller.Moves.{
  Move, refused, lost, kept, greeted, readied, advanced, done, stopped, broke, Names, accept_cases,
}
use mcp_loadtest.Distributed.Controller.Run.{Command, receive, start, cancel, step, run}

-- Evidence that is there names its agent.
abbrev pub FinalNames : String → Option AgentEvidence → Type 0
FinalNames name none = Unit
FinalNames name (some e) = Names name e

abbrev pub ProgressNames : String → Option (ℕ × AgentEvidence) → Type 0
ProgressNames name none = Unit
ProgressNames name (some (n, e)) = Names name e

-- What a phase says of the fields beside it: progress only after the start, final evidence exactly
-- when finished, a failure report only when failed, and a signature once a worker was ready.
abbrev pub PhaseFacts : Phase → Option Signature → AgentState → Type 0
PhaseFacts awaiting_hello sig a =
    (a.latest_progress ≡ none) × (a.final_evidence ≡ none) × (a.failure ≡ none)
PhaseFacts preparing sig a =
    (a.latest_progress ≡ none) × (a.final_evidence ≡ none) × (a.failure ≡ none)
PhaseFacts ready sig a =
    (a.latest_progress ≡ none)
    × (a.final_evidence ≡ none)
    × (a.failure ≡ none)
    × (is_some sig ≡ true)
PhaseFacts running sig a = (a.final_evidence ≡ none) × (a.failure ≡ none) × (is_some sig ≡ true)
PhaseFacts finished sig a =
    (is_some a.final_evidence ≡ true) × (a.failure ≡ none) × (is_some sig ≡ true)
PhaseFacts failed sig a = a.final_evidence ≡ none
PhaseFacts cancelling sig a = (a.final_evidence ≡ none) × (a.failure ≡ none)
PhaseFacts cancelled sig a = (a.final_evidence ≡ none) × (a.failure ≡ none)

pub record Holds (job : String) (sig : Option Signature) (name : String) (a : AgentState)
    : Type 0 where
  pub own_job : a.prepare.job_id ≡ job
  pub own_name : a.prepare.shard.agent_name ≡ name
  pub final_names : FinalNames name a.final_evidence
  pub progress_names : ProgressNames name a.latest_progress
  pub phase_facts : PhaseFacts a.phase sig a

pub record Inv (s : JobState) : Type 0 where
  pub sorted : IsSorted s.agents
  pub agents : Every (Holds s.job_id s.ready_signature) s.agents

-- A move keeps the agent's facts, under the signature that it leaves.
Move-Holds :
    {job name : String} {sig : Option Signature} {a : AgentState} {m : WireMessage} {h : Handled}
    → Holds job sig name a
    → Move job sig name a m h
    → Holds job h.signature name h.agent
Move-Holds v (refused e q) = rw q v
Move-Holds v (lost e p q) = ground arith
Move-Holds v (kept r q) = rw q v
Move-Holds v (greeted g m p q) = ground arith
Move-Holds v (readied r m p full agrees q) = ground arith
Move-Holds v (advanced r m p names newer q) = ground arith
Move-Holds v (done f m p names q) = ground arith
Move-Holds v (stopped c m p q) = ground arith
Move-Holds v (broke f m p own q) = ground arith

Move-signed :
    {job name : String} {sig : Option Signature} {a : AgentState} {m : WireMessage} {h : Handled}
    → Move job sig name a m h
    → is_some sig ≡ true
    → is_some h.signature ≡ true
Move-signed (refused e q) t = rw q t
Move-signed (lost e p q) t = rw q t
Move-signed (kept r q) t = rw q t
Move-signed (greeted g m p q) t = rw q t
Move-signed (readied r m p full agrees q) t = rw q refl
Move-signed (advanced r m p names newer q) t = rw q t
Move-signed (done f m p names q) t = rw q t
Move-signed (stopped c m p q) t = rw q t
Move-signed (broke f m p own q) t = rw q t

PhaseFacts-mono :
    (p : Phase) (sig sig' : Option Signature) (a : AgentState)
    → (is_some sig ≡ true → is_some sig' ≡ true)
    → PhaseFacts p sig a
    → PhaseFacts p sig' a
PhaseFacts-mono ready sig sig' a f h = (h.0, h.1, h.2, f h.3)
PhaseFacts-mono running sig sig' a f h = (h.0, h.1, f h.2)
PhaseFacts-mono finished sig sig' a f h = (h.0, h.1, f h.2)
PhaseFacts-mono _ sig sig' a f h = h

Holds-mono :
    (job : String) (sig sig' : Option Signature)
    → (is_some sig ≡ true → is_some sig' ≡ true)
    → (name : String) (a : AgentState) → Holds job sig name a
    → Holds job sig' name a
Holds-mono job sig sig' f name a v = record {
  own_job = v.own_job;
  own_name = v.own_name;
  final_names = v.final_names;
  progress_names = v.progress_names;
  phase_facts = PhaseFacts-mono a.phase sig sig' a f v.phase_facts;
}

-- Every frame, accepted or refused, keeps the invariant.
pub accept-Inv : (s : JobState) (agent : String) (f : WireFrame) → Inv s → Inv (accept s agent f).0
accept-Inv s agent f v =
    accept_cases (λ r. Inv r.0) s agent f (λ e. v)
      λ a h present move. record {
        sorted = update-IsSorted agent h.agent s.agents v.sorted;
        agents =
            Every-update (Holds s.job_id h.signature) agent h.agent s.agents
              (Every-map (Holds s.job_id s.ready_signature) (Holds s.job_id h.signature) s.agents
                (Holds-mono s.job_id s.ready_signature h.signature (Move-signed move)) v.agents)
              (Move-Holds
                (Every-get (Holds s.job_id s.ready_signature) agent a s.agents v.agents present)
                move);
      }

started-Every :
    (job : String) (sig : Option Signature) (m : List (String × AgentState))
    → all (λ a. is_ready a.phase) (values m) ≡ true
    → Every (Holds job sig) m
    → Every (Holds job sig) (map_values (λ a. record a { phase = running }) m)
started-Every job sig [] r e = tt
started-Every job sig ((name, a) ∷ m) r e =
    (ground (arith, e.0.phase_facts), started-Every job sig m (ground arith) e.1)

pub start_all-Inv : (s : JobState) (lead : ℕ) → Inv s → Inv (start_all s lead).0
unfolding start_all
start_all-Inv s lead v = elim (Bool-cases (all_ready s)) [
  | inr waiting ↦ rw waiting v
  | inl full ↦ rw full (record {
    sorted = map_values-IsSorted _ s.agents v.sorted;
    agents = started-Every s.job_id s.ready_signature s.agents full v.agents;
  })
]

cancelled-Holds :
    (job : String) (sig : Option Signature) (name : String) (a : AgentState)
    → Holds job sig name a
    → Holds job sig name (record a { phase = cancel_phase a.phase })
cancelled-Holds job sig name a v = ground (arith, v.phase_facts)

pub cancel_all-Inv : (s : JobState) (reason : String) → Inv s → Inv (cancel_all s reason).0
unfolding cancel_all
cancel_all-Inv s reason v = record {
  sorted = map_values-IsSorted _ s.agents v.sorted;
  agents =
      Every-map_values (Holds s.job_id s.ready_signature) (Holds s.job_id s.ready_signature) _
        s.agents (cancelled-Holds s.job_id s.ready_signature) v.agents;
}

pub enlist_ok :
    (job : String) (p : PrepareFrame) (ps : List PrepareFrame) (m : List (String × AgentState))
    {m' : List (String × AgentState)}
    → enlist job (p ∷ ps) m ≡ ok m'
    → (p.job_id ≡ job)
      × (get p.shard.agent_name m ≡ none)
      × (enlist job ps (insert p.shard.agent_name (enlisted p) m) ≡ ok m')
unfolding enlist
enlist_ok job p ps m h = ground (arith, str_eq_iff p.job_id job)

enlisted-Holds :
    (p : PrepareFrame) (job : String)
    → p.job_id ≡ job
    → Holds job none p.shard.agent_name (enlisted p)
enlisted-Holds p job own = ground arith

enlist-Inv :
    (job : String) (ps : List PrepareFrame) (m : List (String × AgentState))
    {m' : List (String × AgentState)}
    → IsSorted m
    → Every (Holds job none) m
    → enlist job ps m ≡ ok m'
    → IsSorted m' × Every (Holds job none) m'
unfolding enlist
enlist-Inv job [] m s e h = ground arith
enlist-Inv job (p ∷ ps) m s e h =
    let (own, absent, rest) = enlist_ok job p ps m h in
    enlist-Inv job ps _ (insert-IsSorted _ _ m s)
      (Every-insert (Holds job none) _ (enlisted p) m e (enlisted-Holds p job own)) rest

-- A new job satisfies the invariant.
pub new-Inv : (ps : List PrepareFrame) {s : JobState} → new ps ≡ ok s → Inv s
unfolding new
new-Inv [] h = cc
new-Inv (p ∷ ps) h =
    let (m, enlisted, e) = >>=-eq-ok (enlist p.job_id (p ∷ ps) []) _ h in
    let (sorted, agents) = enlist-Inv p.job_id (p ∷ ps) [] tt tt enlisted in ground arith

step-Inv : (s : JobState) (c : Command) → Inv s → Inv (step s c)
unfolding step
step-Inv s (receive agent f) v = accept-Inv s agent f v
step-Inv s (start lead) v = start_all-Inv s lead v
step-Inv s (cancel reason) v = cancel_all-Inv s reason v

pub run-Inv : (s : JobState) (cs : List Command) → Inv s → Inv (run s cs)
unfolding run
run-Inv s [] v = v
run-Inv s (c ∷ cs) v = run-Inv (step s c) cs (step-Inv s c v)

-- After any history of a new job the invariant holds.
pub run-new-Inv :
    (ps : List PrepareFrame) (cs : List Command) {s : JobState} → new ps ≡ ok s → Inv (run s cs)
run-new-Inv ps cs h = run-Inv _ cs (new-Inv ps h)
