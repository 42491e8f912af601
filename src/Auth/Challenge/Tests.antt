-- ===== src/Auth/Challenge/Tests.antt =====
-- Challenges (as in the tests of crates/auth/src/challenge.rs), with a `parse_url` that keeps the text.
use mcp_loadtest.Base.{[], ◌∷◌, ◌++◌, none, some, ok, err, ◌≡◌, refl, map}
use mcp_loadtest.Base.Characters.{codes}
use mcp_loadtest.Base.Map.{insert}
use mcp_loadtest.Auth.Texts.{Text, trim}
use mcp_loadtest.Auth.Scope.{parse_scopes}
use mcp_loadtest.Auth.Error.{invalid_challenge}
use mcp_loadtest.Auth.Challenge.{
  parse, bearer_parameters, quote, split_quoted, possible_scheme, parse_parameter,
  sanitize_error_code,
}
use mcp_loadtest.Auth.Challenge.Rendering.{Parameter, IsValid, header}
use mcp_loadtest.Auth.Challenge.RoundTrip.{bearer_parameters-header, pair}

abbrev quoted_word : Text → Text
quoted_word word = quote ∷ word ++ quote ∷ []

-- Basic realm="one,two", bearer error="bad", scope="mcp:write mcp:read"
abbrev two_challenges : Text
two_challenges =
    codes "Basic realm="
    ++ quoted_word (codes "one,two")
    ++ codes ", bearer error="
    ++ quoted_word (codes "bad")
    ++ codes ", scope="
    ++ quoted_word (codes "mcp:write mcp:read")

bearer_after_basic :
    parse Text some (two_challenges ∷ [])
    ≡ ok (
        some (record {
          resource_metadata = none;
          scopes = (codes "mcp:read", tt) ∷ (codes "mcp:write", tt) ∷ [];
          error = some (codes "bad");
        }))
unfolding parse bearer_parameters codes split_quoted trim possible_scheme parse_parameter
    parse_scopes sanitize_error_code insert
bearer_after_basic = refl

no_bearer : parse Text some ((codes "Basic realm=" ++ quoted_word (codes "test")) ∷ []) ≡ ok none
unfolding parse bearer_parameters codes split_quoted trim possible_scheme
no_bearer = refl

unterminated :
    parse Text some ((codes "Bearer scope=" ++ quote ∷ codes "broken") ∷ []) ≡ err invalid_challenge
unfolding parse bearer_parameters codes split_quoted trim possible_scheme
unterminated = refl

-- r="a, \"b\"", s="x"
abbrev realm : Parameter
realm = record { name = b'r' ∷ []; value = b'a' ∷ b',' ∷ 32 ∷ quote ∷ b'b' ∷ quote ∷ [] }

abbrev scope : Parameter
scope = record { name = b's' ∷ []; value = b'x' ∷ [] }

realm-IsValid : IsValid realm
realm-IsValid = record {
  named = refl;
  name_codes = (record { allowed = refl; small = refl }, tt);
  printable = (refl, (refl, (refl, (refl, (refl, (refl, tt))))));
}

scope-IsValid : IsValid scope
scope-IsValid = record {
  named = refl;
  name_codes = (record { allowed = refl; small = refl }, tt);
  printable = (refl, tt);
}

bearer_parameters-header_example :
    bearer_parameters (header realm (scope ∷ [])) ≡ ok (some (map pair (realm ∷ scope ∷ [])))
bearer_parameters-header_example =
    bearer_parameters-header realm (scope ∷ []) (realm-IsValid, (scope-IsValid, tt))
