-- ===== src/Auth/Challenge.antt =====
-- crates/auth/src/challenge.rs: the Bearer challenge of a `WWW-Authenticate` field. The crate url is the
-- argument `parse_url`; the bytes of a field are read as code points, which no ASCII byte is part of.
pub mod Quoting
pub mod Rendering
pub mod RoundTrip
mod Tests
use mcp_loadtest.Base.{
  ℕ, zero, suc, Bool, true, false, not, ◌&&◌, ◌||◌, List, [], ◌∷◌, ◌++◌, all, any, filter, is_empty,
  Option, none, some, ◌==◌, if◌then◌else◌, Result, ok, err, ◌>>=◌, ◌>>◌, reject, ltb, leb,
}
use mcp_loadtest.Base.Characters.{codes, within, is_alphanumeric, is_control, is_whitespace}
use mcp_loadtest.Auth.Texts.{Text, trim, to_lowercase, same_text, split_once}
use mcp_loadtest.Auth.Scope.{ScopeSet, no_scopes, parse_scopes}
use mcp_loadtest.Auth.Error.{AuthError, invalid_challenge}

abbrev pub quote : ℕ
quote = b'"'

abbrev pub backslash : ℕ
backslash = 92

abbrev pub comma : ℕ
comma = b','

-- `take_while` on the code points before the first blank, and what follows.
abbrev pub before_blank : Text → Text
before_blank [] = []
before_blank (c ∷ rest) = if is_whitespace c then [] else c ∷ before_blank rest

abbrev pub from_blank : Text → Text
from_blank [] = []
from_blank (c ∷ rest) = if is_whitespace c then c ∷ rest else from_blank rest

abbrev pub is_scheme_code : ℕ → Bool
is_scheme_code c = is_alphanumeric c || c == b'-' || c == b'_' || c == b'.'

unfoldable pub possible_scheme : Text → Option Text × Text
possible_scheme segment =
    let first = before_blank segment in
    if any (λ c. c == b'=') first
    then (none, segment)
    else if all is_scheme_code first
    then (some first, from_blank segment)
    else (none, segment)

-- A code point goes to the front of the segment that is read.
abbrev pub onto_first : ℕ → List Text → List Text
onto_first c [] = (c ∷ []) ∷ []
onto_first c (segment ∷ rest) = (c ∷ segment) ∷ rest

abbrev pub starts_escape : (quoted escaped : Bool) → ℕ → Bool
starts_escape quoted escaped c = not escaped && c == backslash && quoted

abbrev pub stays_quoted : (quoted escaped : Bool) → ℕ → Bool
stays_quoted quoted escaped c = if not escaped && c == quote then not quoted else quoted

abbrev pub is_split : (quoted escaped : Bool) → ℕ → Bool
is_split quoted escaped c = not escaped && c == comma && not quoted

-- The loop of `split_quoted`: the segments from here on, the first of which is under way.
unfoldable pub split_from : (quoted escaped : Bool) → Text → Result AuthError (List Text)
split_from quoted escaped [] = if quoted || escaped then err invalid_challenge else ok ([] ∷ [])
split_from quoted escaped (c ∷ rest) = do
  parts ← split_from (stays_quoted quoted escaped c) (starts_escape quoted escaped c) rest
  ok (if is_split quoted escaped c then [] ∷ parts else onto_first c parts)

unfoldable pub split_quoted : Text → Result AuthError (List Text)
unfolding split_from
split_quoted value = split_from false false value

abbrev pub onto_ok : ℕ → Result AuthError Text → Result AuthError Text
onto_ok c (ok text) = ok (c ∷ text)
onto_ok c (err e) = err e

unfoldable pub unescape_quoted : Text → Result AuthError Text
unescape_quoted [] = ok []
unescape_quoted (c ∷ []) =
    if c == backslash || is_control c then err invalid_challenge else ok (c ∷ [])
unescape_quoted (c ∷ d ∷ rest) =
    let after_escape = onto_ok d (unescape_quoted rest) in
    let plain = onto_ok c (unescape_quoted (d ∷ rest)) in
    if c == backslash
    then if ltb d 128 then after_escape else err invalid_challenge
    else if is_control c
    then err invalid_challenge
    else plain

abbrev pub is_name_code : ℕ → Bool
is_name_code c = is_alphanumeric c || c == b'-' || c == b'_'

abbrev is_value_code : ℕ → Bool
is_value_code c = within 33 126 c && not (c == comma) && not (c == quote)

-- Without its last code point, if that is a quote.
abbrev pub unquoted : Text → Option Text
unquoted [] = none
unquoted (c ∷ []) = if c == quote then some [] else none
unquoted (c ∷ d ∷ rest) = elim (unquoted (d ∷ rest)) [ none ↦ none | some inner ↦ some (c ∷ inner) ]

abbrev pub parse_value : Text → Result AuthError Text
parse_value [] = err invalid_challenge
parse_value (c ∷ rest) =
    if c == quote
    then elim (unquoted rest) [ none ↦ err invalid_challenge | some inner ↦ unescape_quoted inner ]
    else if all is_value_code (c ∷ rest)
    then ok (c ∷ rest)
    else err invalid_challenge

abbrev pub parse_named : Text → Text → Result AuthError (Text × Text)
parse_named name raw_value = do
  reject (is_empty name || not (all is_name_code name)) invalid_challenge
  value ← parse_value raw_value
  ok (name, value)

abbrev pub parse_sides : Option (Text × Text) → Result AuthError (Text × Text)
parse_sides none = err invalid_challenge
parse_sides (some (name, raw_value)) = parse_named (to_lowercase (trim name)) (trim raw_value)

unfoldable pub parse_parameter : Text → Result AuthError (Text × Text)
unfolding split_once trim unescape_quoted
parse_parameter segment = parse_sides (split_once b'=' segment)

-- The variables of the loop of `bearer_parameters`.
pub record Scan : Type 0 where
  pub current_is_bearer : Bool
  pub found : Bool
  pub parameters : List (Text × Text)

abbrev pub started : Scan
started = record { current_is_bearer = false; found = false; parameters = [] }

abbrev pub push : Scan → Result AuthError (Text × Text) → Result AuthError Scan
push s (err e) = err e
push s (ok parameter) = ok (record s { parameters = s.parameters ++ parameter ∷ [] })

-- A round of the loop, on a segment that is trimmed and not empty.
abbrev pub on_segment : Scan → Text → Option Text × Text → Result AuthError Scan
on_segment s segment (none, remainder) =
    if s.current_is_bearer then push s (parse_parameter segment) else ok s
on_segment s segment (some scheme, remainder) =
    let is_bearer = same_text (to_lowercase scheme) (codes "bearer") in
    let begun = record s { current_is_bearer = is_bearer; found = s.found || is_bearer } in
    if is_bearer && not (is_empty (trim remainder))
    then push begun (parse_parameter (trim remainder))
    else ok begun

unfoldable pub scan_segments : Scan → List Text → Result AuthError Scan
scan_segments s [] = ok s
scan_segments s (segment ∷ rest) = do
  let trimmed = trim segment
  after ← if is_empty trimmed then ok s else on_segment s trimmed (possible_scheme trimmed)
  scan_segments after rest

unfoldable pub bearer_parameters : Text → Result AuthError (Option (List (Text × Text)))
unfolding scan_segments
bearer_parameters value = do
  segments ← split_quoted value
  s ← scan_segments started segments
  ok (if s.found then some s.parameters else none)

-- `BearerChallenge`
pub record BearerChallenge (Url : Type 0) : Type 0 where
  pub resource_metadata : Option Url
  pub scopes : ScopeSet
  pub error : Option Text

-- `filter(…).take(64)`
abbrev take : ℕ → Text → Text
take n [] = []
take zero (c ∷ rest) = []
take (suc n) (c ∷ rest) = c ∷ take n rest

unfoldable pub sanitize_error_code : Text → Text
sanitize_error_code value =
    let sanitized = take 64 (filter is_name_code value) in
    if is_empty sanitized then codes "unknown_error" else sanitized

module _ (Url : Type 0) (parse_url : Text → Option Url) where
  abbrev absent : BearerChallenge Url
  absent = record { resource_metadata = none; scopes = no_scopes; error = none }

  abbrev with_url : BearerChallenge Url → Option Url → Result AuthError (BearerChallenge Url)
  with_url c none = err invalid_challenge
  with_url c (some u) = ok (record c { resource_metadata = some u })

  unfoldable pub set_parameter :
      BearerChallenge Url → Text × Text → Result AuthError (BearerChallenge Url)
  set_parameter c (name, value) =
      if same_text name (codes "resource_metadata")
      then with_url c (parse_url value)
      else if same_text name (codes "scope")
      then ok (record c { scopes = parse_scopes value })
      else if same_text name (codes "error")
      then ok (record c { error = some (sanitize_error_code value) })
      else ok c

  unfoldable pub set_all :
      BearerChallenge Url → List (Text × Text) → Result AuthError (BearerChallenge Url)
  unfolding set_parameter
  set_all c [] = ok c
  set_all c (parameter ∷ rest) = do after ← set_parameter c parameter; set_all after rest

  -- `BearerChallenge::parse`
  unfoldable pub parse : List Text → Result AuthError (Option (BearerChallenge Url))
  unfolding set_all
  parse [] = ok none
  parse (value ∷ rest) = do
    found ← bearer_parameters value
    elim found [
      | none ↦ parse rest
      | some parameters ↦ set_all absent parameters >>= λ c. ok (some c)
    ]
