-- ===== src/Auth/Scope/Tests.antt =====
-- Sets of scopes (as in the tests of crates/auth/src/scope.rs).
use mcp_loadtest.Base.{[], ◌∷◌, ◌≡◌, refl}
use mcp_loadtest.Base.Characters.{codes}
use mcp_loadtest.Base.Map.{insert}
use mcp_loadtest.Auth.Scope.{ScopeSet, parse_scopes, union, to_oauth_string, new}
use mcp_loadtest.Auth.Scope.Tokens.{parsed, united}
use mcp_loadtest.Auth.Scope.RoundTrip.{parse_scopes-to_oauth_string}
use mcp_loadtest.Auth.Scope.StepUp.{Call, answers, granted, answers-new}

abbrev prior : ScopeSet
prior = parse_scopes (codes "mcp:read mcp:basic")

abbrev challenged : ScopeSet
challenged = parse_scopes (codes "mcp:write mcp:read")

deterministic : to_oauth_string (union prior challenged) ≡ codes "mcp:basic mcp:read mcp:write"
unfolding to_oauth_string union parse_scopes insert codes
deterministic = refl

parse_scopes-to_oauth_string_example :
    parse_scopes (to_oauth_string (union prior challenged)) ≡ union prior challenged
parse_scopes-to_oauth_string_example = parse_scopes-to_oauth_string (union prior challenged) (
    united prior challenged (parsed (codes "mcp:read mcp:basic"))
      (parsed (codes "mcp:write mcp:read")))

abbrev call : Call
call = (prior, challenged)

answers-new_example : answers (new 1) (call ∷ call ∷ []) ≡ granted 1 (call ∷ call ∷ [])
answers-new_example = answers-new 1 (call ∷ call ∷ [])
