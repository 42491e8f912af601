-- ===== src/Auth/Challenge/Rendering.antt =====
-- A Bearer challenge as the grammar of the header writes it, and what `bearer_parameters`
-- (crates/auth/src/challenge.rs) reads from it.
use mcp_loadtest.Base.{
  ℕ, Bool, true, false, ◌||◌, List, [], ◌∷◌, ◌++◌, any, all, is_empty, some, ◌≡◌, refl, arith, All,
  ◌==◌, ok, ap, sym, ◌∙◌,
}
use mathlib.Core.List.{append-nil, append_assoc}
use mcp_loadtest.Base.Characters.{codes, within, is_whitespace}
use mcp_loadtest.Auth.Texts.{Text, trim, trim_start, trim_end, lower, to_lowercase, split_once}
use mcp_loadtest.Auth.Challenge.{
  split_quoted, split_from, parse_parameter, parse_sides, parse_named, is_name_code, quote, comma,
}
use mcp_loadtest.Auth.Challenge.Quoting.{
  quoted, escape, Printable, parse_value-quoted, onto, in_front, in_front-append, in_front-ok,
  split_from-plain, split_from-value,
}

-- A code point of a name in lower case.
pub record NameCode (c : ℕ) : Type 0 where
  pub allowed : is_name_code c ≡ true
  pub small : within b'A' b'Z' c ≡ false

pub record Parameter : Type 0 where
  pub name : Text
  pub value : Text

pub record IsValid (p : Parameter) : Type 0 where
  pub named : is_empty p.name ≡ false
  pub name_codes : All NameCode p.name
  pub printable : Printable p.value

-- `name="value"`
abbrev pub written : Parameter → Text
written p = p.name ++ b'=' ∷ quoted p.value

abbrev pub further : List Parameter → Text
further [] = []
further (p ∷ rest) = comma ∷ 32 ∷ (written p ++ further rest)

-- `Bearer name="value", name="value"`
abbrev pub header : Parameter → List Parameter → Text
header p rest = codes "Bearer" ++ 32 ∷ (written p ++ further rest)

-- What a code point of a name is not.
pub record Apart (c : ℕ) : Type 0 where
  pub no_quote : (c == quote) ≡ false
  pub no_comma : (c == comma) ≡ false
  pub no_equals : (c == b'=') ≡ false
  pub no_blank : is_whitespace c ≡ false
  pub unchanged : lower c ≡ c

pub NameCode-Apart : (c : ℕ) → NameCode c → Apart c
NameCode-Apart c n = record {
  no_quote = ground (arith, n.allowed);
  no_comma = ground (arith, n.allowed);
  no_equals = ground (arith, n.allowed);
  no_blank = ground (arith, n.allowed);
  unchanged = ground (arith, n.small);
}

split_from-name :
    (name rest : Text)
    → All NameCode name
    → split_from false false (name ++ rest) ≡ in_front name (split_from false false rest)
split_from-name [] rest n = refl
split_from-name (c ∷ name) rest n =
    let apart = NameCode-Apart c n.0 in
    split_from-plain c (name ++ rest) apart.no_quote apart.no_comma
    ∙ ap (onto c) (split_from-name name rest n.1)

split_from-written :
    (p : Parameter) (rest : Text)
    → IsValid p
    → split_from false false (written p ++ rest)
      ≡ in_front (written p) (split_from false false rest)
split_from-written p rest v =
    ap (split_from false false) (append_assoc p.name (b'=' ∷ quoted p.value) rest)
    ∙ split_from-name p.name (b'=' ∷ (quoted p.value ++ rest)) v.name_codes
    ∙ ap (in_front p.name) (
        split_from-plain b'=' (quoted p.value ++ rest) refl refl
        ∙ ap (onto b'=') (
            ap (λ t. split_from false false (quote ∷ t))
              (append_assoc (escape p.value) (quote ∷ []) rest)
            ∙ split_from-value p.value rest))
    ∙ sym (in_front-append p.name (b'=' ∷ quoted p.value) (split_from false false rest))

-- The segments after the first one that is under way.
abbrev pub segments : List Parameter → List Text
segments [] = []
segments (p ∷ rest) = (32 ∷ written p) ∷ segments rest

split_from-comma :
    (rest : Text) (parts : List Text)
    → split_from false false rest ≡ ok parts
    → split_from false false (comma ∷ rest) ≡ ok ([] ∷ parts)
unfolding split_from
split_from-comma rest parts h = ground arith

split_from-further :
    (ps : List Parameter)
    → All IsValid ps
    → split_from false false (further ps) ≡ ok ([] ∷ segments ps)
unfolding split_from
split_from-further [] v = refl
split_from-further (p ∷ rest) v =
    split_from-comma (32 ∷ (written p ++ further rest)) ((32 ∷ written p) ∷ segments rest) (
      split_from-plain 32 (written p ++ further rest) refl refl
      ∙ ap (onto 32) (
          split_from-written p (further rest) v.0
          ∙ ap (in_front (written p)) (split_from-further rest v.1)
          ∙ in_front-ok (written p) [] (segments rest)
          ∙ ap (λ t. ok (t ∷ segments rest)) (append-nil (written p))))

or_false : (a b : Bool) → (a || b) ≡ false → (a ≡ false) × (b ≡ false)
or_false a b h = (ground arith, ground arith)

split_from-plain_text :
    (s rest : Text)
    → any (λ c. c == quote) s ≡ false
    → any (λ c. c == comma) s ≡ false
    → split_from false false (s ++ rest) ≡ in_front s (split_from false false rest)
split_from-plain_text [] rest h k = refl
split_from-plain_text (c ∷ s) rest h k =
    let no_quote = or_false (c == quote) (any (λ d. d == quote) s) h in
    let no_comma = or_false (c == comma) (any (λ d. d == comma) s) k in
    split_from-plain c (s ++ rest) no_quote.0 no_comma.0
    ∙ ap (onto c) (split_from-plain_text s rest no_quote.1 no_comma.1)

pub split_quoted-header :
    (p : Parameter) (rest : List Parameter)
    → All IsValid (p ∷ rest)
    → split_quoted (header p rest) ≡ ok ((codes "Bearer" ++ 32 ∷ written p) ∷ segments rest)
unfolding split_quoted codes
split_quoted-header p rest v =
    split_from-plain_text (codes "Bearer" ++ 32 ∷ []) (written p ++ further rest) refl refl
    ∙ ap (in_front (codes "Bearer" ++ 32 ∷ [])) (
        split_from-written p (further rest) v.0
        ∙ ap (in_front (written p)) (split_from-further rest v.1)
        ∙ in_front-ok (written p) [] (segments rest)
        ∙ ap (λ t. ok (t ∷ segments rest)) (append-nil (written p)))

-- Trimming takes nothing from a text with no blank at its ends.
pub trim_end-snoc :
    (s : Text) (c : ℕ) → is_whitespace c ≡ false → trim_end (s ++ c ∷ []) ≡ s ++ c ∷ []
unfolding trim_end
trim_end-snoc [] c h = rw h refl
trim_end-snoc (d ∷ []) c h = ground (arith, trim_end-snoc [] c h)
trim_end-snoc (d ∷ e ∷ s) c h = ground (arith, trim_end-snoc (e ∷ s) c h)

trim_end-name : (name : Text) → All NameCode name → trim_end name ≡ name
unfolding trim_end
trim_end-name [] n = refl
trim_end-name (c ∷ rest) n = ground (arith, (NameCode-Apart c n.0).no_blank, trim_end-name rest n.1)

trim-name : (name : Text) → All NameCode name → trim name ≡ name
unfolding trim trim_start
trim-name [] n = refl
trim-name (c ∷ rest) n = rw ((NameCode-Apart c n.0).no_blank) (trim_end-name (c ∷ rest) n)

to_lowercase-name : (name : Text) → All NameCode name → to_lowercase name ≡ name
to_lowercase-name [] n = refl
to_lowercase-name (c ∷ rest) n =
    ground (arith, (NameCode-Apart c n.0).unchanged, to_lowercase-name rest n.1)

split_once-name :
    (name t : Text) → All NameCode name → split_once b'=' (name ++ b'=' ∷ t) ≡ some (name, t)
unfolding split_once
split_once-name [] t n = refl
split_once-name (c ∷ rest) t n =
    ground (arith, (NameCode-Apart c n.0).no_equals, split_once-name rest t n.1)

all-name : (name : Text) → All NameCode name → all is_name_code name ≡ true
all-name [] n = refl
all-name (c ∷ rest) n = ground (arith, n.0.allowed, all-name rest n.1)

trim-quoted : (v : Text) → trim (quoted v) ≡ quoted v
unfolding trim trim_start
trim-quoted v = trim_end-snoc (quote ∷ escape v) quote refl

parse_named-valid :
    (p : Parameter) → IsValid p → parse_named p.name (quoted p.value) ≡ ok (p.name, p.value)
parse_named-valid p v =
    rw (v.named, all-name p.name v.name_codes, parse_value-quoted p.value v.printable) refl

pub parse_parameter-written :
    (p : Parameter) → IsValid p → parse_parameter (written p) ≡ ok (p.name, p.value)
unfolding parse_parameter
parse_parameter-written p v =
    ap parse_sides (split_once-name p.name (quoted p.value) v.name_codes)
    ∙ ap (λ n. parse_named (to_lowercase n) (trim (quoted p.value))) (trim-name p.name v.name_codes)
    ∙ ap (λ n. parse_named n (trim (quoted p.value))) (to_lowercase-name p.name v.name_codes)
    ∙ ap (parse_named p.name) (trim-quoted p.value)
    ∙ parse_named-valid p v
