-- ===== src/Engine/Pool/Complete.antt =====
-- What it means that `drive_pooled` (crates/engine/src/scenario/pool.rs) counts no worker as incomplete.
use mcp_loadtest.Base.{
  ℕ, ◌+◌, ◌-◌, ◌≤◌, ◌<◌, ◌==◌, List, [], ◌∷◌, length, is_empty, String, Option, none, some, Result,
  ok, err, ◌≡◌, refl, ◌⊎◌, inl, inr, arith, All, Bool-cases, ◌∙◌, ap,
}
use mcp_loadtest.Base.Checked.{u64_limit}
use mcp_loadtest.Base.Order.{nat_ord}
use mcp_loadtest.Base.Sorting.{sort_by}
use mcp_loadtest.Base.Sorted.{length-sort_by}
use mcp_loadtest.Core.Outcome.{ScenarioOutcome, no_outcome}
use mcp_loadtest.Engine.Pool.{
  Context, before_start, before_cancelled_start, PoolNote, SpawnJoin, session, refused,
  spawn_panicked, WorkerJoin, finished, worker_panicked, Shutdown, clean, exceeded, shutdown_error,
  Events, Pool, on_spawn, join_spawns, record_shutdown, shutdown_sessions, merge_worker_outcome,
  on_worker, join_workers, give_up, run_workers, after_gate, spawned, drive_pooled, push,
  saturating_add, cancelled_before_start, gate_failed,
}
use mcp_loadtest.Engine.Pool.Counts.{
  contribution, contributions, Exercised, IsSession, sessions_in, contributions-Exercised,
  sessions_in-all, length-snoc, length-empty, length-not_empty,
}

module _ (note : PoolNote → String) where
  join_spawns-sessions :
      (p : Pool) (js : List SpawnJoin)
      → length (join_spawns note p js).sessions ≡ length p.sessions + sessions_in js
  unfolding join_spawns
  join_spawns-sessions p [] = omega arith
  join_spawns-sessions p (session idx ∷ rest) =
      ground (
        arith,
        join_spawns-sessions (on_spawn note p (session idx)) rest,
        length-snoc p.sessions idx,
      )
  join_spawns-sessions p (refused idx error class ∷ rest) =
      join_spawns-sessions (on_spawn note p (refused idx error class)) rest
  join_spawns-sessions p (spawn_panicked error ∷ rest) =
      join_spawns-sessions (on_spawn note p (spawn_panicked error)) rest

  record_shutdown-keeps :
      (context : Context) (idx : ℕ) (s : Shutdown) (o : ScenarioOutcome)
      → (record_shutdown note context idx s o).incomplete_worker_count ≡ o.incomplete_worker_count
  unfolding record_shutdown
  record_shutdown-keeps context idx clean o = refl
  record_shutdown-keeps context idx exceeded o = refl
  record_shutdown-keeps context idx (shutdown_error error) o = refl

  shutdown_sessions-keeps :
      (context : Context) (shutdown : ℕ → Shutdown) (l : List ℕ) (o : ScenarioOutcome)
      → (shutdown_sessions note context shutdown l o).incomplete_worker_count
        ≡ o.incomplete_worker_count
  unfolding shutdown_sessions
  shutdown_sessions-keeps context shutdown [] o = refl
  shutdown_sessions-keeps context shutdown (idx ∷ rest) o =
      shutdown_sessions-keeps context shutdown rest
        (record_shutdown note context idx (shutdown idx) o)
      ∙ record_shutdown-keeps context idx (shutdown idx) o

  on_worker-contribution :
      (p : Pool) (j : WorkerJoin)
      → p.outcome.incomplete_worker_count + contribution j < u64_limit
      → (on_worker note p j).outcome.incomplete_worker_count
        ≡ p.outcome.incomplete_worker_count + contribution j
  unfolding on_worker merge_worker_outcome
  on_worker-contribution p (finished idx o) h = elim (Bool-cases (o.total_calls == 0)) [
    | inl t ↦ ground (arith, t)
    | inr f ↦ ground (arith, f)
  ]
  on_worker-contribution p (worker_panicked error) h = omega arith

  join_workers-contributions :
      (p : Pool) (js : List WorkerJoin)
      → p.outcome.incomplete_worker_count + contributions js < u64_limit
      → (join_workers note p js).outcome.incomplete_worker_count
        ≡ p.outcome.incomplete_worker_count + contributions js
  unfolding join_workers
  join_workers-contributions p [] h = omega arith
  join_workers-contributions p (j ∷ rest) h =
      let one = on_worker-contribution p j (omega arith) in
      let others = join_workers-contributions (on_worker note p j) rest (omega arith) in omega arith

  -- Sessions that are given up are all incomplete.
  give_up-incomplete :
      (context : Context) (shutdown : ℕ → Shutdown) (n : PoolNote) (p : Pool)
      → 1 ≤ length p.sessions
      → 1 ≤ (give_up note context shutdown n p).outcome.incomplete_worker_count
  unfolding give_up
  give_up-incomplete context shutdown n p h =
      let kept = shutdown_sessions-keeps context shutdown p.sessions (
        push note n (record p.outcome {
          incomplete_worker_count =
              saturating_add p.outcome.incomplete_worker_count (length p.sessions);
        })) in
      omega arith

  run_workers-incomplete :
      (e : Events) (requested : ℕ) (p : Pool)
      → p.outcome.incomplete_worker_count + contributions e.worker_joins < u64_limit
      → (run_workers note e requested p).outcome.incomplete_worker_count
        ≡ p.outcome.incomplete_worker_count + contributions e.worker_joins
  unfolding run_workers
  run_workers-incomplete e requested p b = join_workers-contributions p e.worker_joins b

  -- What is started is complete only if nobody was missing and no worker adds to the count.
  started-incomplete :
      (e : Events) (requested : ℕ) (p : Pool)
      → 1 ≤ length p.sessions
      → p.outcome.incomplete_worker_count + contributions e.worker_joins < u64_limit
      → (after_gate note e requested p none).outcome.incomplete_worker_count ≡ 0
      → (p.outcome.incomplete_worker_count ≡ 0) × (contributions e.worker_joins ≡ 0)
  started-incomplete e requested p l b h = elim (Bool-cases e.cancelled_waiting) [
    | inl t ↦ absurd (
        ground (
          arith,
          t,
          give_up-incomplete before_cancelled_start e.shutdown cancelled_before_start p l,
        ))
    | inr f ↦
        let sum = run_workers-incomplete e requested p b in
        (ground (arith, f, sum), ground (arith, f, sum))
  ]

  after_gate-incomplete :
      (e : Events) (requested : ℕ) (p : Pool) (gate : Option (Result String (Unit {0})))
      → 1 ≤ length p.sessions
      → p.outcome.incomplete_worker_count + contributions e.worker_joins < u64_limit
      → (after_gate note e requested p gate).outcome.incomplete_worker_count ≡ 0
      → (p.outcome.incomplete_worker_count ≡ 0) × (contributions e.worker_joins ≡ 0)
  after_gate-incomplete e requested p (some (err error)) l b h =
      absurd (ground (arith, give_up-incomplete before_start e.shutdown (gate_failed error) p l))
  after_gate-incomplete e requested p (some (ok u)) l b h = started-incomplete e requested p l b h
  after_gate-incomplete e requested p none l b h = started-incomplete e requested p l b h

  spawned-sessions :
      (e : Events) (requested : ℕ)
      → (length (spawned note e requested).sessions ≡ sessions_in e.spawn_joins)
        × ((spawned note e requested).outcome.incomplete_worker_count
            ≡ requested - sessions_in e.spawn_joins)
  unfolding spawned
  spawned-sessions e requested =
      let joined =
        join_spawns-sessions (record { outcome = no_outcome; sessions = []; recorded = [] })
          e.spawn_joins in
      let total : length (spawned note e requested).sessions ≡ sessions_in e.spawn_joins =
        omega arith in
      (total, ap (λ n. requested - n) total)

  -- If the spawn of every requested worker is joined, the counts do not wrap, and drive_pooled counts no
  -- worker as incomplete, then no worker was requested, or every spawn gave a session and every worker that
  -- was joined came to its end with at least one call and no incomplete worker of its own.
  pub drive_pooled_complete :
      (e : Events) (requested : ℕ)
      → length e.spawn_joins ≡ requested
      → requested + contributions e.worker_joins < u64_limit
      → (drive_pooled note e requested).outcome.incomplete_worker_count ≡ 0
      → (requested ≡ 0) ⊎ (All IsSession e.spawn_joins × All Exercised e.worker_joins)
  unfolding drive_pooled
  drive_pooled_complete e requested n b h =
      let p = spawned note e requested in
      let (many, missing) = spawned-sessions e requested in
      elim (Bool-cases e.has_factory) [
        | inr without ↦ inl (ground (arith, without))
        | inl t ↦ elim (Bool-cases (requested == 0)) [
          | inl z ↦ inl (ground (arith, z))
          | inr nz ↦ elim (Bool-cases e.cancelled) [
            | inl c ↦ inl (ground (arith, t, nz, c))
            | inr nc ↦ elim (Bool-cases (is_empty p.sessions)) [
              | inl em ↦ inl (ground (arith, t, nz, nc, em, missing, length-empty p.sessions em))
              | inr full ↦
                  let sorted : Pool = record p { sessions = sort_by (λ idx. idx) p.sessions } in
                  let same_length = length-sort_by (λ idx. idx) p.sessions in
                  let some_session = length-not_empty p.sessions full in
                  let done : (after_gate note e requested sorted
                        e.gate).outcome.incomplete_worker_count
                      ≡ 0 =
                    ground (arith, t, nz, nc, full) in
                  let (none_missing, none_added) =
                    after_gate-incomplete e requested sorted e.gate (omega arith) (omega arith)
                      done in
                  inr (
                    sessions_in-all e.spawn_joins (omega arith),
                    contributions-Exercised e.worker_joins none_added,
                  )
            ]
          ]
        ]
      ]
