-- ===== src/Distributed/Controller/Ending.antt =====
-- How a job ends: final evidence, and cancellation (crates/distributed/src/state.rs).
use mcp_loadtest.Base.{
  String, Bool, true, false, List, [], ◌∷◌, Option, none, some, ok, err, ◌≡◌, refl, inl, inr, arith,
  Bool-cases, Option-cases, all, map,
}
use mcp_loadtest.Base.Order.{str_ord}
use mcp_loadtest.Base.Map.{get, get-head, get-rest, keys, values, Every, IsSorted}
use mcp_loadtest.Distributed.Evidence.{AgentEvidence}
use mcp_loadtest.Distributed.Controller.Types.{AgentState, JobState, Phase, Error, Signature}
use mcp_loadtest.Distributed.Controller.Types.Phase.{finished}
use mcp_loadtest.Distributed.Controller.{final_evidence, collect_final}
use mcp_loadtest.Distributed.Controller.Invariant.{Inv, Holds}
use mcp_loadtest.Distributed.Controller.Moves.{Names}

abbrev pub is_finished : Phase → Bool
is_finished finished = true
is_finished _ = false

abbrev pub all_finished : JobState → Bool
all_finished s = all (λ a. is_finished a.phase) (values s.agents)

-- What `final_evidence` may answer, by whether every agent has finished.
abbrev pub FinalResult : JobState → Bool → Type 0
FinalResult s true =
    (es : List AgentEvidence) × (final_evidence s ≡ ok es)
    × (map some es ≡ map (λ a. a.final_evidence) (values s.agents))
    × (map (λ e. e.agent_name) es ≡ keys s.agents)
    × (map (λ e. e.shard.agent_name) es ≡ keys s.agents)
FinalResult s false =
    (name : String) × (a : AgentState) × (final_evidence s
      ≡ err (Error.missing_final_evidence name))
    × (get name s.agents ≡ some a)
    × (is_finished a.phase ≡ false)

finished-evidence :
    (job : String) (sig : Option Signature) (name : String) (a : AgentState)
    → Holds job sig name a
    → is_finished a.phase ≡ true
    → (e : AgentEvidence) × (a.final_evidence ≡ some e) × Names name e
finished-evidence job sig name a v f = elim (Option-cases a.final_evidence) [
  | inl none_yet ↦ absurd (ground (arith, v.phase_facts))
  | inr (e, there) ↦ (e, there, ground (arith, v.final_names))
]

unfinished-none :
    (job : String) (sig : Option Signature) (name : String) (a : AgentState)
    → Holds job sig name a
    → is_finished a.phase ≡ false
    → a.final_evidence ≡ none
unfinished-none job sig name a v f = ground (arith, v.phase_facts)

module _ (s : JobState) where
  collect-all :
      (m : List (String × AgentState))
      → Every (Holds s.job_id s.ready_signature) m
      → all (λ a. is_finished a.phase) (values m) ≡ true
      → (es : List AgentEvidence) × (collect_final m ≡ ok es)
        × (map some es ≡ map (λ a. a.final_evidence) (values m))
        × (map (λ e. e.agent_name) es ≡ keys m)
        × (map (λ e. e.shard.agent_name) es ≡ keys m)
  unfolding collect_final
  collect-all [] v f = ([], refl, refl, refl, refl)
  collect-all ((name, a) ∷ m) v f =
      let (e, there, named) =
        finished-evidence s.job_id s.ready_signature name a v.0 (ground arith) in
      let (es, rest, kept, names, shards) = collect-all m v.1 (ground arith) in
      (e ∷ es, rw (there, rest) refl, cc, cc, cc)

  collect-missing :
      (m : List (String × AgentState))
      → IsSorted m
      → Every (Holds s.job_id s.ready_signature) m
      → all (λ a. is_finished a.phase) (values m) ≡ false
      → (name : String) × (a : AgentState) × (collect_final m
          ≡ err (Error.missing_final_evidence name))
        × (get name m ≡ some a)
        × (is_finished a.phase ≡ false)
  unfolding collect_final
  collect-missing [] o v f = cc
  collect-missing ((name, a) ∷ m) o v f = elim (Bool-cases (is_finished a.phase)) [
    | inl done ↦
        let (e, there, named) = finished-evidence s.job_id s.ready_signature name a v.0 done in
        let (missing, b, failure, found, unfinished) = collect-missing m o.1 v.1 (ground arith) in
        (missing, b, rw (there, failure) refl, get-rest name missing a m o found, unfinished)
    | inr unfinished ↦ (
      name,
      a,
      rw (unfinished-none s.job_id s.ready_signature name a v.0 unfinished) refl,
      get-head name a m,
      unfinished,
    )
  ]

-- Between calls, `final_evidence` is, if all agents have finished, the final evidence that each agent's entry
-- keeps, in the order of their names, and each is under its agent's name, in its shard too; otherwise it is
-- an error that names one that has not finished.
pub final_evidence-result : (s : JobState) → Inv s → FinalResult s (all_finished s)
unfolding final_evidence
final_evidence-result s v = elim (Bool-cases (all_finished s)) [
  | inl f ↦ rw f (collect-all s s.agents v.agents f)
  | inr f ↦ rw f (collect-missing s s.agents v.sorted v.agents f)
]
