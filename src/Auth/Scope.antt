-- ===== src/Auth/Scope.antt =====
-- crates/auth/src/scope.rs: sets of scopes, and the bounded series of step-ups.
pub mod Tokens
pub mod RoundTrip
pub mod StepUp
mod Tests
use mcp_loadtest.Base.{
  ℕ, ◌+◌, Bool, not, ◌&&◌, List, [], ◌∷◌, ◌++◌, any, is_empty, Result, ok, err, leb, ◌==◌,
  if◌then◌else◌, ◌||◌,
}
use mcp_loadtest.Base.Characters.{is_whitespace}
use mcp_loadtest.Base.ListOrder.{list_ord}
use mcp_loadtest.Base.Map.{insert, keys}
use mcp_loadtest.Base.Order.{nat_ord}
use mcp_loadtest.Auth.Texts.{Text}
use mcp_loadtest.Auth.Error.{AuthError, step_up_retry_limit}

-- `BTreeSet<String>`
abbrev pub ScopeSet : Type 0
ScopeSet = List (Text × Unit {0})

abbrev pub no_scopes : ScopeSet
no_scopes = []

abbrev pub is_ascii_whitespace : ℕ → Bool
is_ascii_whitespace c = c == 32 || c == 9 || c == 10 || c == 12 || c == 13

-- `split_ascii_whitespace`, with the token that is under way.
unfoldable pub tokens : Text → Text → List Text
tokens token [] = if is_empty token then [] else token ∷ []
tokens token (c ∷ rest) =
    let blank = is_ascii_whitespace c in
    let later = tokens (if blank then [] else token ++ c ∷ []) rest in
    if blank && not (is_empty token) then token ∷ later else later

abbrev pub collect : List Text → ScopeSet → ScopeSet
collect [] set = set
collect (scope ∷ rest) set = collect rest (insert scope tt set)

unfoldable pub parse_scopes : Text → ScopeSet
unfolding tokens
parse_scopes value = collect (tokens [] value) []

abbrev pub is_scope : Text → Bool
is_scope scope = not (is_empty scope) && not (any is_whitespace scope)

unfoldable pub from_tokens : List Text → ScopeSet → ScopeSet
from_tokens [] set = set
from_tokens (scope ∷ rest) set =
    from_tokens rest (if is_scope scope then insert scope tt set else set)

unfoldable pub insert_scope : Text → ScopeSet → ScopeSet
insert_scope scope set = if is_scope scope then insert scope tt set else set

unfoldable pub union : ScopeSet → ScopeSet → ScopeSet
union left right = collect (keys right) left

unfoldable pub joined : List Text → Text
joined [] = []
joined (scope ∷ []) = scope
joined (scope ∷ other ∷ rest) = scope ++ 32 ∷ joined (other ∷ rest)

unfoldable pub to_oauth_string : ScopeSet → Text
unfolding joined
to_oauth_string set = joined (keys set)

pub record StepUpTracker : Type 0 where
  pub attempts : ℕ
  pub maximum_attempts : ℕ

abbrev pub new : ℕ → StepUpTracker
new maximum = record { attempts = 0; maximum_attempts = maximum }

-- The tracker afterwards, and the scopes to ask for.
unfoldable pub next :
    StepUpTracker → ScopeSet → ScopeSet → StepUpTracker × Result AuthError ScopeSet
next t prior challenged =
    if leb t.maximum_attempts t.attempts
    then (t, err step_up_retry_limit)
    else (record t { attempts = t.attempts + 1 }, ok (union prior challenged))
