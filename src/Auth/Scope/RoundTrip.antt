-- ===== src/Auth/Scope/RoundTrip.antt =====
-- Sets of scopes and the text of a request for them (crates/auth/src/scope.rs).
use mcp_loadtest.Base.{
  ℕ, false, List, [], ◌∷◌, ◌++◌, any, none, some, ◌≡◌, refl, arith, if◌then◌else◌, All, ap, sym,
  ◌∙◌,
}
use mathlib.Core.List.{append_assoc, append-nil}
use mcp_loadtest.Base.ListOrder.{list_ord}
use mcp_loadtest.Base.Map.{get, insert, get-insert, keys, ext}
use mcp_loadtest.Base.Order.{nat_ord, same}
use mcp_loadtest.Base.Sets.{holds}
use mcp_loadtest.Auth.Texts.{Text}
use mcp_loadtest.Auth.Scope.{
  ScopeSet, no_scopes, tokens, collect, parse_scopes, union, joined, to_oauth_string,
  is_ascii_whitespace,
}
use mcp_loadtest.Auth.Scope.Tokens.{
  Token, IsValid, keys-Token, Built, Built-IsValid, collect-IsValid, no_scopes-IsValid,
}

tokens-code :
    (token : Text) (c : ℕ) (rest : Text)
    → is_ascii_whitespace c ≡ false
    → tokens token (c ∷ rest) ≡ tokens (token ++ c ∷ []) rest
unfolding tokens
tokens-code token c rest h = rw h refl

-- What has no blank goes to the token under way.
tokens-word :
    (token s rest : Text)
    → any is_ascii_whitespace s ≡ false
    → tokens token (s ++ rest) ≡ tokens (token ++ s) rest
tokens-word token [] rest h = ap (λ t. tokens t rest) (sym (append-nil token))
tokens-word token (c ∷ s) rest h =
    tokens-code token c (s ++ rest) (ground arith)
    ∙ tokens-word (token ++ c ∷ []) s rest (ground arith)
    ∙ ap (λ t. tokens t rest) (append_assoc token (c ∷ []) s)

tokens-end : (scope : Text) → Token scope → tokens scope [] ≡ scope ∷ []
unfolding tokens
tokens-end scope t = rw (t.some_code) refl

tokens-blank : (scope rest : Text) → Token scope → tokens scope (32 ∷ rest) ≡ scope ∷ tokens [] rest
unfolding tokens
tokens-blank scope rest t = rw (t.some_code) refl

tokens-joined : (scopes : List Text) → All Token scopes → tokens [] (joined scopes) ≡ scopes
unfolding joined tokens
tokens-joined [] t = refl
tokens-joined (scope ∷ []) t =
    ap (tokens []) (sym (append-nil scope))
    ∙ tokens-word [] scope [] t.0.no_blank
    ∙ tokens-end scope t.0
tokens-joined (scope ∷ other ∷ rest) t =
    tokens-word [] scope (32 ∷ joined (other ∷ rest)) t.0.no_blank
    ∙ tokens-blank scope (joined (other ∷ rest)) t.0
    ∙ ap (λ l. scope ∷ l) (tokens-joined (other ∷ rest) t.1)

get-collect :
    (j : Text) (scopes : List Text) (set : ScopeSet)
    → get j (collect scopes set) ≡ (if any (same j) scopes then some tt else get j set)
get-collect j [] set = refl
get-collect j (scope ∷ rest) set =
    ground (arith, get-collect j rest (insert scope tt set), get-insert j scope tt set)

get-keys :
    (j : Text) (set : ScopeSet) → get j set ≡ (if any (same j) (keys set) then some tt else none)
unfolding get
get-keys j [] = refl
get-keys j ((scope, u) ∷ set) = ground (arith, get-keys j set)

collect-keys : (set : ScopeSet) → IsValid set → collect (keys set) no_scopes ≡ set
unfolding get
collect-keys set v =
    ext (collect (keys set) no_scopes) set
      (collect-IsValid (keys set) no_scopes (keys-Token set v.whole) no_scopes-IsValid).sorted
      v.sorted λ j. get-collect j (keys set) no_scopes ∙ sym (get-keys j set)

-- A set of scopes, however the operations have built it, is read back from the text that a request for it
-- has.
pub parse_scopes-to_oauth_string :
    (set : ScopeSet) → Built set → parse_scopes (to_oauth_string set) ≡ set
unfolding parse_scopes to_oauth_string
parse_scopes-to_oauth_string set b =
    let v = Built-IsValid set b in
    ap (λ scopes. collect scopes no_scopes) (tokens-joined (keys set) (keys-Token set v.whole))
    ∙ collect-keys set v

-- What a union holds.
pub get-union :
    (j : Text) (left right : ScopeSet)
    → get j (union left right) ≡ (if holds j right then some tt else get j left)
unfolding union
get-union j left right = ground (arith, get-collect j (keys right) left, get-keys j right)
