-- ===== src/Engine/Pool.antt =====
-- crates/engine/src/scenario/pool.rs, `drive_pooled`, with `record_shutdown` of teardown.rs: sessions that are
-- spawned together, and their workers. What the tasks come to, in the order in which they are joined, and what
-- the gate and the timers come to are the argument `Events`; a session is the index of its worker, and the
-- text of a note is the argument `note` of its kind and values.
pub mod Counts
pub mod Complete
mod Tests
use mcp_loadtest.Base.{
  ℕ, ◌+◌, ◌-◌, ◌%◌, min, Bool, true, false, ◌==◌, not, if◌then◌else◌, List, [], ◌∷◌, ◌++◌, map,
  length, is_empty, String, Option, none, some, Result, ok, err,
}
use mcp_loadtest.Base.Checked.{u32_limit, u64_limit}
use mcp_loadtest.Base.Order.{nat_ord}
use mcp_loadtest.Base.Sorting.{sort_by}
use mcp_loadtest.Core.Metrics.{CallOutcome, crash}
use mcp_loadtest.Core.Outcome.{ScenarioOutcome, no_outcome}

-- Why a session is shut down.
pub data Context : Type 0 where
  before_start before_cancelled_start : Context

pub data PoolNote : Type 0 where
  no_session_factory : PoolNote
  none_requested : PoolNote
  cancelled_before_spawn : PoolNote
  failed_to_spawn : (idx : ℕ) (error : String) → PoolNote
  spawn_task_failed : (error : String) → PoolNote
  all_spawns_failed : (requested : ℕ) → PoolNote
  gate_failed : (error : String) → PoolNote
  cancelled_before_start : PoolNote
  worker_task_failed : (error : String) → PoolNote
  worker_note : (idx : ℕ) (text : String) → PoolNote
  no_call : (idx : ℕ) → PoolNote
  pool_size : (spawned requested : ℕ) → PoolNote
  teardown_failed : (context : Context) (idx : ℕ) (error : String) → PoolNote
  teardown_exceeded : (context : Context) (idx : ℕ) → PoolNote

-- A spawn task that is joined: a session, a refusal with its class, or a panic.
pub data SpawnJoin : Type 0 where
  session : (idx : ℕ) → SpawnJoin
  refused : (idx : ℕ) (error : String) (class : CallOutcome) → SpawnJoin
  spawn_panicked : (error : String) → SpawnJoin

pub data WorkerJoin : Type 0 where
  finished : (idx : ℕ) (outcome : ScenarioOutcome) → WorkerJoin
  worker_panicked : (error : String) → WorkerJoin

-- What `timeout(…, session.shutdown())` comes to.
pub data Shutdown : Type 0 where
  clean exceeded : Shutdown
  shutdown_error : (error : String) → Shutdown

pub record Events : Type 0 where
  pub has_factory : Bool
  pub cancelled : Bool
  pub spawn_joins : List SpawnJoin
  pub gate : Option (Result String (Unit {0}))
  pub cancelled_waiting : Bool
  pub worker_joins : List WorkerJoin
  pub shutdown : ℕ → Shutdown

-- Wrapping sums of the counters.
abbrev pub add_u64 : ℕ → ℕ → ℕ
add_u64 a b = (a + b) % u64_limit

abbrev pub add_u32 : ℕ → ℕ → ℕ
add_u32 a b = (a + b) % u32_limit

abbrev pub saturating_add : ℕ → ℕ → ℕ
saturating_add a b = min (a + b) (u64_limit - 1)

-- The outcome so far, the sessions, and the calls recorded, each in no time.
pub record Pool : Type 0 where
  pub outcome : ScenarioOutcome
  pub sessions : List ℕ
  pub recorded : List CallOutcome

module _ (note : PoolNote → String) where
  abbrev pub push : PoolNote → ScenarioOutcome → ScenarioOutcome
  push n o = record o { notes = o.notes ++ note n ∷ [] }

  abbrev pub with_error : PoolNote → CallOutcome → Pool → Pool
  with_error n class p = record p {
    outcome = push n (record p.outcome { error_count = add_u64 p.outcome.error_count 1 });
    recorded = p.recorded ++ class ∷ [];
  }

  unfoldable pub on_spawn : Pool → SpawnJoin → Pool
  on_spawn p (session idx) = record p { sessions = p.sessions ++ idx ∷ [] }
  on_spawn p (refused idx error class) = with_error (failed_to_spawn idx error) class p
  on_spawn p (spawn_panicked error) = with_error (spawn_task_failed error) crash p

  unfoldable pub join_spawns : Pool → List SpawnJoin → Pool
  unfolding on_spawn
  join_spawns p [] = p
  join_spawns p (joined ∷ rest) = join_spawns (on_spawn p joined) rest

  unfoldable pub record_shutdown : Context → ℕ → Shutdown → ScenarioOutcome → ScenarioOutcome
  record_shutdown context idx clean o = o
  record_shutdown context idx exceeded o =
      push (teardown_exceeded context idx)
        (record o { teardown_failure_count = saturating_add o.teardown_failure_count 1 })
  record_shutdown context idx (shutdown_error error) o =
      push (teardown_failed context idx error)
        (record o { teardown_failure_count = saturating_add o.teardown_failure_count 1 })

  unfoldable pub shutdown_sessions :
      Context → (ℕ → Shutdown) → List ℕ → ScenarioOutcome → ScenarioOutcome
  unfolding record_shutdown
  shutdown_sessions context shutdown [] o = o
  shutdown_sessions context shutdown (idx ∷ rest) o =
      shutdown_sessions context shutdown rest (record_shutdown context idx (shutdown idx) o)

  unfoldable pub merge_worker_outcome : ScenarioOutcome → ℕ → ScenarioOutcome → ScenarioOutcome
  merge_worker_outcome into idx from =
      let merged : ScenarioOutcome = record {
        total_calls = add_u64 into.total_calls from.total_calls;
        successful_calls = add_u64 into.successful_calls from.successful_calls;
        hang_count = add_u32 into.hang_count from.hang_count;
        deadlock_count = add_u32 into.deadlock_count from.deadlock_count;
        error_count = add_u64 into.error_count from.error_count;
        divergence_count = add_u64 into.divergence_count from.divergence_count;
        incomplete_worker_count = add_u64 into.incomplete_worker_count from.incomplete_worker_count;
        teardown_failure_count = add_u64 into.teardown_failure_count from.teardown_failure_count;
        notes = into.notes ++ map (λ n. note (worker_note idx n)) from.notes;
        hung_for_ms = into.hung_for_ms ++ from.hung_for_ms;
      } in
      if from.total_calls == 0
      then push (no_call idx)
          (record merged { incomplete_worker_count = add_u64 merged.incomplete_worker_count 1 })
      else merged

  unfoldable pub on_worker : Pool → WorkerJoin → Pool
  unfolding merge_worker_outcome
  on_worker p (finished idx outcome) = record p {
    outcome = merge_worker_outcome p.outcome idx outcome;
  }
  on_worker p (worker_panicked error) =
      let after = with_error (worker_task_failed error) crash p in
      record after {
        outcome = record after.outcome {
          incomplete_worker_count = add_u64 p.outcome.incomplete_worker_count 1;
        };
      }

  unfoldable pub join_workers : Pool → List WorkerJoin → Pool
  unfolding on_worker
  join_workers p [] = p
  join_workers p (joined ∷ rest) = join_workers (on_worker p joined) rest

  -- The sessions are given up before the start.
  unfoldable pub give_up : Context → (ℕ → Shutdown) → PoolNote → Pool → Pool
  unfolding shutdown_sessions
  give_up context shutdown n p = record p {
    outcome = shutdown_sessions context shutdown p.sessions (
        push n (record p.outcome {
          incomplete_worker_count =
              saturating_add p.outcome.incomplete_worker_count (length p.sessions);
        }));
  }

  unfoldable pub run_workers : Events → ℕ → Pool → Pool
  unfolding join_workers
  run_workers e requested p =
      let after = join_workers p e.worker_joins in
      record after { outcome = push (pool_size (length p.sessions) requested) after.outcome }

  abbrev pub after_gate : Events → ℕ → Pool → Option (Result String (Unit {0})) → Pool
  after_gate e requested p (some (err error)) =
      give_up before_start e.shutdown (gate_failed error) p
  after_gate e requested p started =
      if e.cancelled_waiting
      then give_up before_cancelled_start e.shutdown cancelled_before_start p
      else run_workers e requested p

  abbrev pub nothing_driven : PoolNote → ℕ → Pool
  nothing_driven n incomplete = record {
    outcome = push n (record no_outcome { incomplete_worker_count = incomplete });
    sessions = [];
    recorded = [];
  }

  -- The pool once its sessions are spawned.
  unfoldable pub spawned : Events → ℕ → Pool
  unfolding join_spawns
  spawned e requested =
      let p =
        join_spawns (record { outcome = no_outcome; sessions = []; recorded = [] }) e.spawn_joins in
      record p {
        outcome = record p.outcome { incomplete_worker_count = requested - length p.sessions };
      }

  unfoldable pub drive_pooled : Events → ℕ → Pool
  unfolding spawned give_up run_workers sort_by
  drive_pooled e requested =
      let p = spawned e requested in
      if not e.has_factory
      then nothing_driven no_session_factory requested
      else if requested == 0
      then nothing_driven none_requested 0
      else if e.cancelled
      then nothing_driven cancelled_before_spawn requested
      else if is_empty p.sessions
      then record p { outcome = push (all_spawns_failed requested) p.outcome }
      else after_gate e requested (record p { sessions = sort_by (λ idx. idx) p.sessions }) e.gate
