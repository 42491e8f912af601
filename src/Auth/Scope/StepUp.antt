-- ===== src/Auth/Scope/StepUp.antt =====
-- The answers of a tracker of crates/auth/src/scope.rs to a series of calls.
use mcp_loadtest.Base.{
  ℕ, zero, suc, ◌+◌, List, [], ◌∷◌, ◌≡◌, refl, arith, leb, true, false, Result, ok, err, ap,
}
use mcp_loadtest.Auth.Scope.{ScopeSet, union, StepUpTracker, next, new}
use mcp_loadtest.Auth.Error.{AuthError, step_up_retry_limit}

-- A call is the scopes so far and those of a challenge.
abbrev pub Call : Type 0
Call = ScopeSet × ScopeSet

abbrev pub answers : StepUpTracker → List Call → List (Result AuthError ScopeSet)
answers t [] = []
answers t ((prior, challenged) ∷ rest) =
    let after = next t prior challenged in after.1 ∷ answers after.0 rest

-- The first `allowance` calls get the union, all others are refused.
abbrev pub granted : (allowance : ℕ) → List Call → List (Result AuthError ScopeSet)
granted allowance [] = []
granted zero (call ∷ rest) = err step_up_retry_limit ∷ granted zero rest
granted (suc n) ((prior, challenged) ∷ rest) = ok (union prior challenged) ∷ granted n rest

abbrev tracker : ℕ → ℕ → StepUpTracker
tracker attempts maximum = record { attempts = attempts; maximum_attempts = maximum }

answers-granted :
    (n attempts maximum : ℕ) (calls : List Call)
    → maximum ≡ n + attempts
    → answers (tracker attempts maximum) calls ≡ granted n calls
unfolding next
answers-granted n attempts maximum [] h = refl
answers-granted zero attempts maximum (call ∷ rest) h =
    let limit : leb maximum attempts ≡ true = ground arith in
    rw limit (ap (λ l. err step_up_retry_limit ∷ l) (answers-granted zero attempts maximum rest h))
answers-granted (suc n) attempts maximum (call ∷ rest) h =
    let under : leb maximum attempts ≡ false = ground arith in
    rw under (
      ap (λ l. ok (union call.0 call.1) ∷ l)
        (answers-granted n (attempts + 1) maximum rest (omega arith)))

-- A new tracker answers as many calls as its limit says, each with the union of the scopes so far and those
-- of the challenge, and refuses every call after them.
pub answers-new :
    (maximum : ℕ) (calls : List Call) → answers (new maximum) calls ≡ granted maximum calls
answers-new maximum calls = answers-granted maximum 0 maximum calls (omega arith)
