-- ===== src/Auth/Challenge/Quoting.antt =====
-- Quoted strings of crates/auth/src/challenge.rs: what the loops make of a text that is written with quotes
-- and backslashes as the header's grammar has it.
use mcp_loadtest.Base.{
  ℕ, Bool, true, false, ◌||◌, List, [], ◌∷◌, ◌++◌, some, ◌≡◌, refl, arith, All, Bool-cases, inl,
  inr, ◌==◌, if◌then◌else◌, Result, ok, err, ap, ◌∙◌,
}
use mcp_loadtest.Base.Characters.{is_control}
use mcp_loadtest.Auth.Texts.{Text}
use mcp_loadtest.Auth.Error.{AuthError}
use mcp_loadtest.Auth.Challenge.{
  split_from, unescape_quoted, onto_ok, onto_first, unquoted, parse_value, quote, backslash, comma,
}

abbrev special : ℕ → Bool
special c = c == quote || c == backslash

-- A quote and a backslash are written after a backslash.
abbrev pub escape : Text → Text
escape [] = []
escape (c ∷ rest) = if special c then backslash ∷ c ∷ escape rest else c ∷ escape rest

abbrev pub Printable : Text → Type 0
Printable value = All (λ c. is_control c ≡ false) value

unescape_quoted-plain :
    (c : ℕ) (t : Text)
    → special c ≡ false
    → is_control c ≡ false
    → unescape_quoted (c ∷ t) ≡ onto_ok c (unescape_quoted t)
unfolding unescape_quoted
unescape_quoted-plain c [] h k = ground arith
unescape_quoted-plain c (d ∷ t) h k = ground arith

unescape_quoted-special :
    (c : ℕ) (t : Text)
    → special c ≡ true
    → unescape_quoted (backslash ∷ c ∷ t) ≡ onto_ok c (unescape_quoted t)
unfolding unescape_quoted
unescape_quoted-special c t h = ground arith

pub unescape_quoted-escape : (v : Text) → Printable v → unescape_quoted (escape v) ≡ ok v
unfolding unescape_quoted
unescape_quoted-escape [] p = refl
unescape_quoted-escape (c ∷ rest) p = elim (Bool-cases (special c)) [
  | inl h ↦
      rw h (
        unescape_quoted-special c (escape rest) h
        ∙ ap (onto_ok c) (unescape_quoted-escape rest p.1))
  | inr h ↦ rw h (
      unescape_quoted-plain c (escape rest) h p.0
      ∙ ap (onto_ok c) (unescape_quoted-escape rest p.1))
]

-- The first segment gets a text in front.
abbrev pub onto : ℕ → Result AuthError (List Text) → Result AuthError (List Text)
onto c (ok parts) = ok (onto_first c parts)
onto c (err e) = err e

abbrev pub in_front : Text → Result AuthError (List Text) → Result AuthError (List Text)
in_front [] parts = parts
in_front (c ∷ s) parts = onto c (in_front s parts)

pub in_front-append :
    (s t : Text) (parts : Result AuthError (List Text))
    → in_front (s ++ t) parts ≡ in_front s (in_front t parts)
in_front-append [] t parts = refl
in_front-append (c ∷ s) t parts = ap (onto c) (in_front-append s t parts)

pub in_front-ok :
    (s t : Text) (rest : List Text) → in_front s (ok (t ∷ rest)) ≡ ok ((s ++ t) ∷ rest)
in_front-ok [] t rest = refl
in_front-ok (c ∷ s) t rest = ap (onto c) (in_front-ok s t rest)

-- Outside quotes, what is neither a quote nor a comma is kept.
pub split_from-plain :
    (c : ℕ) (rest : Text)
    → (c == quote) ≡ false
    → (c == comma) ≡ false
    → split_from false false (c ∷ rest) ≡ onto c (split_from false false rest)
unfolding split_from
split_from-plain c rest h k = ground arith

split_from-quoted :
    (c : ℕ) (rest : Text)
    → special c ≡ false
    → split_from true false (c ∷ rest) ≡ onto c (split_from true false rest)
unfolding split_from
split_from-quoted c rest h = ground arith

split_from-escaped :
    (c : ℕ) (rest : Text)
    → split_from true false (backslash ∷ c ∷ rest)
      ≡ onto backslash (onto c (split_from true false rest))
unfolding split_from
split_from-escaped c rest = ground arith

split_from-open :
    (rest : Text) → split_from false false (quote ∷ rest) ≡ onto quote (split_from true false rest)
unfolding split_from
split_from-open rest = ground arith

split_from-close :
    (rest : Text) → split_from true false (quote ∷ rest) ≡ onto quote (split_from false false rest)
unfolding split_from
split_from-close rest = ground arith

-- A quoted value is kept, with its quotes and backslashes.
split_from-escape :
    (v rest : Text)
    → split_from true false (escape v ++ quote ∷ rest)
      ≡ in_front (escape v ++ quote ∷ []) (split_from false false rest)
split_from-escape [] rest = split_from-close rest
split_from-escape (c ∷ v) rest = elim (Bool-cases (special c)) [
  | inl h ↦ rw h (
      split_from-escaped c (escape v ++ quote ∷ rest)
      ∙ ap (λ r. onto backslash (onto c r)) (split_from-escape v rest))
  | inr h ↦
      rw h
        (split_from-quoted c (escape v ++ quote ∷ rest) h ∙ ap (onto c) (split_from-escape v rest))
]

-- A value between quotes.
abbrev pub quoted : Text → Text
quoted v = quote ∷ (escape v ++ quote ∷ [])

pub split_from-value :
    (v rest : Text)
    → split_from false false (quote ∷ (escape v ++ quote ∷ rest))
      ≡ in_front (quoted v) (split_from false false rest)
split_from-value v rest =
    split_from-open (escape v ++ quote ∷ rest) ∙ ap (onto quote) (split_from-escape v rest)

unquoted-snoc : (s : Text) → unquoted (s ++ quote ∷ []) ≡ some s
unquoted-snoc [] = refl
unquoted-snoc (c ∷ []) = refl
unquoted-snoc (c ∷ d ∷ s) = ground (arith, unquoted-snoc (d ∷ s))

pub parse_value-quoted : (v : Text) → Printable v → parse_value (quoted v) ≡ ok v
parse_value-quoted v p = rw (unquoted-snoc (escape v)) (unescape_quoted-escape v p)
