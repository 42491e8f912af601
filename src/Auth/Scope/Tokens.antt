-- ===== src/Auth/Scope/Tokens.antt =====
-- What the sets of scopes of crates/auth/src/scope.rs hold, however they are built.
use mcp_loadtest.Base.{
  ℕ, true, false, List, [], ◌∷◌, ◌++◌, any, is_empty, ◌≡◌, refl, arith, All, Bool-cases, inl, inr,
}
use mcp_loadtest.Base.Characters.{is_whitespace}
use mcp_loadtest.Base.ListOrder.{list_ord}
use mcp_loadtest.Base.Map.{insert, keys, IsSorted, insert-IsSorted, Every, Every-insert}
use mcp_loadtest.Base.Order.{nat_ord}
use mcp_loadtest.Auth.Texts.{Text}
use mcp_loadtest.Auth.Scope.{
  ScopeSet, no_scopes, tokens, collect, parse_scopes, is_scope, from_tokens, insert_scope, union,
  is_ascii_whitespace,
}

-- A text that a blank does not part.
pub record Token (scope : Text) : Type 0 where
  pub some_code : is_empty scope ≡ false
  pub no_blank : any is_ascii_whitespace scope ≡ false

pub record IsValid (set : ScopeSet) : Type 0 where
  pub sorted : IsSorted set
  pub whole : Every (λ scope u. Token scope) set

insert-IsValid :
    (scope : Text) (set : ScopeSet) → Token scope → IsValid set → IsValid (insert scope tt set)
insert-IsValid scope set t v = record {
  sorted = insert-IsSorted scope tt set v.sorted;
  whole = Every-insert (λ k u. Token k) scope tt set v.whole t;
}

pub collect-IsValid :
    (scopes : List Text) (set : ScopeSet)
    → All Token scopes
    → IsValid set
    → IsValid (collect scopes set)
collect-IsValid [] set t v = v
collect-IsValid (scope ∷ rest) set t v =
    collect-IsValid rest (insert scope tt set) t.1 (insert-IsValid scope set t.0 v)

pub keys-Token : (set : ScopeSet) → Every (λ scope u. Token scope) set → All Token (keys set)
keys-Token [] e = tt
keys-Token ((scope, u) ∷ set) e = (e.0, keys-Token set e.1)

any-snoc :
    (s : Text) (c : ℕ)
    → any is_ascii_whitespace s ≡ false
    → is_ascii_whitespace c ≡ false
    → any is_ascii_whitespace (s ++ c ∷ []) ≡ false
any-snoc [] c h k = ground (arith, k)
any-snoc (d ∷ s) c h k = ground (arith, any-snoc s c)

tokens-Token :
    (token value : Text) → any is_ascii_whitespace token ≡ false → All Token (tokens token value)
unfolding tokens
tokens-Token [] [] h = tt
tokens-Token (c ∷ token) [] h = (record { some_code = refl; no_blank = h }, tt)
tokens-Token [] (c ∷ rest) h = elim (Bool-cases (is_ascii_whitespace c)) [
  | inl k ↦ rw k (tokens-Token [] rest refl)
  | inr k ↦ rw k (tokens-Token (c ∷ []) rest (any-snoc [] c refl k))
]
tokens-Token (d ∷ token) (c ∷ rest) h = elim (Bool-cases (is_ascii_whitespace c)) [
  | inl k ↦ rw k (record { some_code = refl; no_blank = h }, tokens-Token [] rest refl)
  | inr k ↦ rw k (tokens-Token (d ∷ token ++ c ∷ []) rest (any-snoc (d ∷ token) c h k))
]

any-is_whitespace : (s : Text) → any is_whitespace s ≡ false → any is_ascii_whitespace s ≡ false
any-is_whitespace [] h = refl
any-is_whitespace (c ∷ s) h = ground (arith, any-is_whitespace s)

-- A scope that has no blank of Unicode has none of ASCII.
is_scope-Token : (scope : Text) → is_scope scope ≡ true → Token scope
is_scope-Token scope h = record {
  some_code = ground arith;
  no_blank = any-is_whitespace scope (ground arith);
}

insert_scope-IsValid :
    (scope : Text) (set : ScopeSet) → IsValid set → IsValid (insert_scope scope set)
unfolding insert_scope
insert_scope-IsValid scope set v = elim (Bool-cases (is_scope scope)) [
  | inl h ↦ rw h (insert-IsValid scope set (is_scope-Token scope h) v)
  | inr h ↦ rw h v
]

from_tokens-IsValid :
    (scopes : List Text) (set : ScopeSet) → IsValid set → IsValid (from_tokens scopes set)
unfolding from_tokens insert_scope
from_tokens-IsValid [] set v = v
from_tokens-IsValid (scope ∷ rest) set v =
    from_tokens-IsValid rest (insert_scope scope set) (insert_scope-IsValid scope set v)

-- The sets that the operations build.
pub data Built : ScopeSet → Type 0 where
  parsed : (value : Text) → Built (parse_scopes value)
  from_list : (scopes : List Text) → Built (from_tokens scopes no_scopes)
  inserted : (scope : Text) (set : ScopeSet) → Built set → Built (insert_scope scope set)
  united : (left right : ScopeSet) → Built left → Built right → Built (union left right)

pub no_scopes-IsValid : IsValid no_scopes
no_scopes-IsValid = record { sorted = tt; whole = tt }

pub Built-IsValid : (set : ScopeSet) → Built set → IsValid set
unfolding parse_scopes union
Built-IsValid _ (parsed value) =
    collect-IsValid (tokens [] value) [] (tokens-Token [] value refl) no_scopes-IsValid
Built-IsValid _ (from_list scopes) = from_tokens-IsValid scopes no_scopes no_scopes-IsValid
Built-IsValid _ (inserted scope set b) = insert_scope-IsValid scope set (Built-IsValid set b)
Built-IsValid _ (united left right b c) =
    let other = Built-IsValid right c in
    collect-IsValid (keys right) left (keys-Token right other.whole) (Built-IsValid left b)
