-- ===== src/Engine/Pool/Tests.antt =====
-- Pools of two workers (as in the tests of crates/engine/src/scenario/pool.rs), with notes without text.
use mcp_loadtest.Base.{ℕ, true, false, List, [], ◌∷◌, String, none, ◌≡◌, ◌⊎◌, refl, arith, All}
use mcp_loadtest.Core.Metrics.{timeout}
use mcp_loadtest.Core.Outcome.{ScenarioOutcome, no_outcome}
use mcp_loadtest.Engine.Pool.{
  PoolNote, SpawnJoin, session, refused, WorkerJoin, finished, Events, clean, drive_pooled,
}
use mcp_loadtest.Engine.Pool.Counts.{IsSession, Exercised}
use mcp_loadtest.Engine.Pool.Complete.{drive_pooled_complete}

abbrev silent : PoolNote → String
silent n = ""

abbrev calls : ℕ → ScenarioOutcome
calls n = record no_outcome { total_calls = n; successful_calls = n }

abbrev events : List SpawnJoin → List WorkerJoin → Events
events spawns workers = record {
  has_factory = true;
  cancelled = false;
  spawn_joins = spawns;
  gate = none;
  cancelled_waiting = false;
  worker_joins = workers;
  shutdown = λ idx. clean;
}

abbrev both : Events
both = events (session 1 ∷ session 0 ∷ []) (finished 0 (calls 3) ∷ finished 1 (calls 2) ∷ [])

both_call : ((drive_pooled silent both 2).outcome.total_calls) ≡ 5
unfolding drive_pooled
both_call = refl

-- One worker is refused, and the other makes no call.
abbrev idle : Events
idle = events (refused 1 "no" timeout ∷ session 0 ∷ []) (finished 0 (calls 0) ∷ [])

idle_is_incomplete : ((drive_pooled silent idle 2).outcome.incomplete_worker_count) ≡ 2
unfolding drive_pooled
idle_is_incomplete = refl

both_complete : ((drive_pooled silent both 2).outcome.incomplete_worker_count) ≡ 0
unfolding drive_pooled
both_complete = refl

drive_pooled_complete_example :
    (◌≡◌ {A = ℕ} 2 0) ⊎ (All IsSession both.spawn_joins × All Exercised both.worker_joins)
drive_pooled_complete_example = drive_pooled_complete silent both 2 refl (omega arith) both_complete
