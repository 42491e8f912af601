-- ===== src/Distributed/Aggregate/Cohort.antt =====
-- `aggregate_evidence` (crates/distributed/src/aggregate.rs) accepts whole cohorts only.
use mcp_loadtest.Base.{
  ℕ, ◌+◌, ◌≤◌, ◌<◌, String, Bool, true, false, ◌||◌, List, [], ◌∷◌, ok, ◌≡◌, arith, length, All,
  any, ◌==◌, str_eq, str_eq_iff, Result-cases, inl, inr,
}
use mcp_loadtest.Base.Order.{str_ord, nat_ord, same_iff}
use mcp_loadtest.Base.Map.{get, Every-map, IsSorted, insert-IsSorted, keys, Every, Every-insert}
use mcp_loadtest.Base.Sets.{holds, holds-insert, length-insert, pigeonhole}
use mcp_loadtest.Distributed.Cohort.{Rising, keys-Rising, keys-holds, length-keys}
use mcp_loadtest.Distributed.Evidence.{AgentEvidence}
use mcp_loadtest.Distributed.Aggregate.Types.{Histograms, AggregatedEvidence}
use mcp_loadtest.Distributed.Aggregate.Steps.{Merged, merge_agent-Merged}
use mcp_loadtest.Distributed.Aggregate.{
  Merge, nothing, check_agent, merge_agent, merge_all, finish, aggregate_evidence,
}

-- What the head of the loop has checked of one agent.
pub record FitsIn (size : ℕ) (protocol inventory : String) (a : AgentEvidence) : Type 0 where
  pub own_shard : a.shard.agent_name ≡ a.agent_name
  pub cohort_size : a.shard.agent_count ≡ size
  pub index_below : a.shard.index < size
  pub has_workers : 1 ≤ a.shard.concurrency
  pub same_protocol : a.target_protocol_version ≡ protocol
  pub same_inventory : a.tool_inventory_hash ≡ inventory

abbrev Fits : ℕ → AgentEvidence → AgentEvidence → Type 0
Fits size first a = FitsIn size first.target_protocol_version first.tool_inventory_hash a

-- Some agent has this index.
abbrev pub has_index : ℕ → List AgentEvidence → Bool
has_index i es = any (λ e. e.shard.index == i) es

abbrev pub is_named : String → List AgentEvidence → Bool
is_named name es = any (λ e. str_eq e.agent_name name) es

-- The evidence `es` is one report per agent of a cohort that `r` is about.
pub record Whole (es : List AgentEvidence) (r : AggregatedEvidence) : Type 0 where
  pub fit : All (FitsIn (length es) r.target_protocol_version r.tool_inventory_hash) es
  pub sorted : Rising r.agent_names
  pub as_many : length r.agent_names ≡ length es
  pub indexed : (i : ℕ) → i < length es → has_index i es ≡ true
  pub named : (x : String) → any (str_eq x) r.agent_names ≡ is_named x es

module _ (lib : Histograms) where
  check-Fits :
      (size : ℕ) (first : AgentEvidence) (m : Merge lib) (a : AgentEvidence)
      → check_agent lib size first m a ≡ ok tt
      → Fits size first a
  unfolding check_agent
  check-Fits size first m a h = ground (
    arith,
    str_eq_iff a.agent_name a.shard.agent_name,
    str_eq_iff a.target_protocol_version first.target_protocol_version,
    str_eq_iff a.tool_inventory_hash first.tool_inventory_hash,
  )

  check_fresh :
      (size : ℕ) (first : AgentEvidence) (m : Merge lib) (a : AgentEvidence)
      → check_agent lib size first m a ≡ ok tt
      → (holds a.agent_name m.names ≡ false) × (holds a.shard.index m.shard_indices ≡ false)
  unfolding check_agent
  check_fresh size first m a h = ground arith

  -- The sets of names and of indices between two rounds.
  record Sets (size : ℕ) (m : Merge lib) : Type 0 where
    names_sorted : IsSorted m.names
    indices_sorted : IsSorted m.shard_indices
    below : Every (λ i u. i < size) m.shard_indices

  -- From `m` to `n` the agents of `es` were let in.
  record Entered (size : ℕ) (first : AgentEvidence) (m : Merge lib) (es : List AgentEvidence)
      (n : Merge lib) : Type 0 where
    fit : All (Fits size first) es
    sets : Sets size n
    names_length : length n.names ≡ length m.names + length es
    indices_length : length n.shard_indices ≡ length m.shard_indices + length es
    names : (x : String) → holds x n.names ≡ (holds x m.names || is_named x es)
    indices : (i : ℕ) → holds i n.shard_indices ≡ (holds i m.shard_indices || has_index i es)

  step-Sets :
      (size : ℕ) (first : AgentEvidence) (m : Merge lib) (a : AgentEvidence) {n : Merge lib}
      → Merged lib size first m a n
      → Sets size m
      → Sets size n
  step-Sets size first m a {n} step v = record {
    names_sorted = rw step.names (insert-IsSorted a.agent_name tt m.names v.names_sorted);
    indices_sorted =
        rw step.indices (insert-IsSorted a.shard.index tt m.shard_indices v.indices_sorted);
    below = rw step.indices (
        Every-insert _ a.shard.index tt m.shard_indices v.below
          (check-Fits size first m a step.checked).index_below);
  }

  merge_all-Entered :
      (size : ℕ) (first : AgentEvidence) (m : Merge lib) (es : List AgentEvidence) {n : Merge lib}
      → Sets size m
      → merge_all lib size first m es ≡ ok n
      → Entered size first m es n
  unfolding merge_all
  merge_all-Entered size first m [] v h = ground (arith, v)
  merge_all-Entered size first m (e ∷ es) {n} v h =
      elim (Result-cases (merge_agent lib size first m e)) [
        | inr (x, bad) ↦ absurd (ground (arith, bad))
        | inl (next, good) ↦
            let step = merge_agent-Merged lib size first m e good in
            let rest : Entered size first next es n =
              merge_all-Entered size first next es (step-Sets size first m e step v)
                (ground (arith, good)) in
            let (new_name, new_index) = check_fresh size first m e step.checked in
            record {
              fit = (check-Fits size first m e step.checked, rest.fit);
              sets = rest.sets;
              names_length = ground (
                arith,
                rest.names_length,
                step.names,
                length-insert e.agent_name tt m.names new_name,
              );
              indices_length = ground (
                arith,
                rest.indices_length,
                step.indices,
                length-insert e.shard.index tt m.shard_indices new_index,
              );
              names = λ x. ground (
                arith,
                rest.names x,
                step.names,
                holds-insert x e.agent_name tt m.names,
                same_iff x e.agent_name,
                str_eq_iff e.agent_name x,
              );
              indices = λ i. ground (
                arith,
                rest.indices i,
                step.indices,
                holds-insert i e.shard.index tt m.shard_indices,
                same_iff i e.shard.index,
              );
            }
      ]

  record Finished (first : AgentEvidence) (m : Merge lib) (r : AggregatedEvidence) : Type 0 where
    names : r.agent_names ≡ keys m.names
    protocol : r.target_protocol_version ≡ first.target_protocol_version
    inventory : r.tool_inventory_hash ≡ first.tool_inventory_hash

  finish-Finished :
      (first : AgentEvidence) (m : Merge lib) {r : AggregatedEvidence}
      → finish lib first m ≡ ok r
      → Finished first m r
  unfolding finish
  finish-Finished first m h = record {
    names = ground arith;
    protocol = ground arith;
    inventory = ground arith;
  }

  nothing-Sets : (size : ℕ) → Sets size (nothing lib)
  nothing-Sets size = record { names_sorted = tt; indices_sorted = tt; below = tt }

  -- The loop of a successful aggregation.
  record Ran (es : List AgentEvidence) (r : AggregatedEvidence) : Type 0 where
    first : AgentEvidence
    merged : Merge lib
    entered : Entered (length es) first (nothing lib) es merged
    finished : Finished first merged r

  aggregate-Ran :
      (es : List AgentEvidence) {r : AggregatedEvidence}
      → aggregate_evidence lib es ≡ ok r
      → Ran es r
  unfolding aggregate_evidence
  aggregate-Ran [] h = cc
  aggregate-Ran (first ∷ rest) {r} h =
      elim (Result-cases
        (merge_all lib (length (first ∷ rest)) first (nothing lib) (first ∷ rest))) [
          | inr (x, bad) ↦ absurd (ground (arith, bad))
          | inl (m, good) ↦ record {
            first = first;
            merged = m;
            entered = merge_all-Entered _ first (nothing lib) (first ∷ rest) (nothing-Sets _) good;
            finished = finish-Finished first m (ground (arith, good));
          }
        ]

  -- Every shard index below the number of agents is that of some agent.
  aggregate_evidence-has_index :
      (es : List AgentEvidence) (i : ℕ) {r : AggregatedEvidence}
      → aggregate_evidence lib es ≡ ok r
      → i < length es
      → has_index i es ≡ true
  unfolding get
  aggregate_evidence-has_index es i {r} h below =
      let ran : Ran es r = aggregate-Ran es h in
      let run = ran.entered in
      let all_there : holds i ran.merged.shard_indices ≡ true =
        pigeonhole 0 ran.merged.shard_indices i run.sets.indices_sorted
          (Every-map _ _ ran.merged.shard_indices (λ k u b. omega arith) run.sets.below)
          (Every-map _ _ ran.merged.shard_indices (λ k u b. ground (arith, b, run.indices_length))
            run.sets.below)
          (omega arith) (ground (arith, run.indices_length)) in
      ground (arith, all_there, run.indices i)

  -- If aggregation succeeds, the evidence is of one cohort: every report fits it (its shard is its own,
  -- of this many agents, with a worker, and it saw the common target), every shard index below the
  -- number of agents is that of some agent, no name stands twice, and the result lists exactly the
  -- reporting agents in rising order.
  pub aggregate_evidence-Whole :
      (es : List AgentEvidence) {r : AggregatedEvidence}
      → aggregate_evidence lib es ≡ ok r
      → Whole es r
  unfolding get
  aggregate_evidence-Whole es {r} h =
      let ran : Ran es r = aggregate-Ran es h in
      let run = ran.entered in
      record {
        fit = rw (ran.finished.protocol, ran.finished.inventory) run.fit;
        sorted = rw ran.finished.names (keys-Rising ran.merged.names run.sets.names_sorted);
        as_many =
            ground (arith, ran.finished.names, length-keys ran.merged.names, run.names_length);
        indexed = λ i below. aggregate_evidence-has_index es i h below;
        named = λ x. ground (arith, ran.finished.names, keys-holds x ran.merged.names, run.names x);
      }
