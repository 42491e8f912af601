-- ===== src/Engine/Pool/Counts.antt =====
-- What the tasks of a pool (crates/engine/src/scenario/pool.rs) add to its counts.
use mcp_loadtest.Base.{
  ℕ, suc, ◌+◌, ◌≤◌, true, false, ◌==◌, if◌then◌else◌, List, [], ◌∷◌, ◌++◌, length, is_empty, ◌≡◌,
  refl, arith, All, ap,
}
use mcp_loadtest.Base.Order.{nat_ord}
use mcp_loadtest.Engine.Pool.{
  SpawnJoin, session, refused, spawn_panicked, WorkerJoin, finished, worker_panicked,
}

-- What a worker adds to the count.
abbrev pub contribution : WorkerJoin → ℕ
contribution (finished idx o) = o.incomplete_worker_count + (if o.total_calls == 0 then 1 else 0)
contribution (worker_panicked error) = 1

abbrev pub contributions : List WorkerJoin → ℕ
contributions [] = 0
contributions (j ∷ rest) = contribution j + contributions rest

-- A worker that came to its end and has called a tool.
abbrev pub Exercised : WorkerJoin → Type 0
Exercised (finished idx o) = (1 ≤ o.total_calls) × (o.incomplete_worker_count ≡ 0)
Exercised (worker_panicked error) = ⊥

abbrev pub IsSession : SpawnJoin → Type 0
IsSession (session idx) = Unit
IsSession (refused idx error class) = ⊥
IsSession (spawn_panicked error) = ⊥

abbrev pub sessions_in : List SpawnJoin → ℕ
sessions_in [] = 0
sessions_in (session idx ∷ rest) = suc (sessions_in rest)
sessions_in (refused idx error class ∷ rest) = sessions_in rest
sessions_in (spawn_panicked error ∷ rest) = sessions_in rest

pub contribution-Exercised : (j : WorkerJoin) → contribution j ≡ 0 → Exercised j
contribution-Exercised (finished idx o) h = (ground arith, ground arith)
contribution-Exercised (worker_panicked error) h = ground arith

pub contributions-Exercised : (js : List WorkerJoin) → contributions js ≡ 0 → All Exercised js
contributions-Exercised [] h = tt
contributions-Exercised (j ∷ rest) h =
    (contribution-Exercised j (omega arith), contributions-Exercised rest (omega arith))

pub sessions_in-most : (js : List SpawnJoin) → sessions_in js ≤ length js
sessions_in-most [] = omega arith
sessions_in-most (session idx ∷ rest) = ground (arith, sessions_in-most rest)
sessions_in-most (refused idx error class ∷ rest) = ground (arith, sessions_in-most rest)
sessions_in-most (spawn_panicked error ∷ rest) = ground (arith, sessions_in-most rest)

pub sessions_in-all : (js : List SpawnJoin) → length js ≤ sessions_in js → All IsSession js
sessions_in-all [] h = tt
sessions_in-all (session idx ∷ rest) h = (tt, sessions_in-all rest (ground arith))
sessions_in-all (refused idx error class ∷ rest) h = absurd (ground (arith, sessions_in-most rest))
sessions_in-all (spawn_panicked error ∷ rest) h = absurd (ground (arith, sessions_in-most rest))

pub length-snoc : (l : List ℕ) (x : ℕ) → length (l ++ x ∷ []) ≡ suc (length l)
length-snoc [] x = refl
length-snoc (y ∷ l) x = ap suc (length-snoc l x)

pub length-empty : (l : List ℕ) → is_empty l ≡ true → length l ≡ 0
length-empty [] h = refl
length-empty (x ∷ l) h = absurd (ground arith)

pub length-not_empty : (l : List ℕ) → is_empty l ≡ false → 1 ≤ length l
length-not_empty [] h = ground arith
length-not_empty (x ∷ l) h = ground arith
