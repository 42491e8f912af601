-- ===== src/Auth/Challenge/RoundTrip.antt =====
-- The loop of `bearer_parameters` (crates/auth/src/challenge.rs) over the segments of a written challenge.
use mcp_loadtest.Base.{
  ℕ, true, false, List, [], ◌∷◌, ◌++◌, any, is_empty, Option, none, some, ◌≡◌, refl, arith, All,
  ◌==◌, ok, ap, sym, ◌∙◌, map,
}
use mathlib.Core.List.{append_assoc, append-nil}
use mcp_loadtest.Base.Characters.{codes}
use mcp_loadtest.Auth.Texts.{Text, trim, trim_start, trim_end}
use mcp_loadtest.Auth.Challenge.{
  bearer_parameters, scan_segments, on_segment, started, Scan, possible_scheme, before_blank, quote,
}
use mcp_loadtest.Auth.Challenge.Quoting.{quoted, escape}
use mcp_loadtest.Auth.Challenge.Rendering.{
  Parameter, IsValid, NameCode, NameCode-Apart, written, header, segments, split_quoted-header,
  trim_end-snoc, parse_parameter-written,
}

trim_end-written : (s : Text) (p : Parameter) → trim_end (s ++ written p) ≡ s ++ written p
trim_end-written s p =
    let inner = b'=' ∷ quote ∷ escape p.value in
    let as_snoc : s ++ written p ≡ (s ++ (p.name ++ inner)) ++ quote ∷ [] =
      ap (λ t. s ++ t) (sym (append_assoc p.name inner (quote ∷ [])))
      ∙ sym (append_assoc s (p.name ++ inner) (quote ∷ [])) in
    ap trim_end as_snoc ∙ trim_end-snoc (s ++ (p.name ++ inner)) quote refl ∙ sym as_snoc

trim_start-name :
    (name t : Text) → is_empty name ≡ false → All NameCode name → trim_start (name ++ t) ≡ name ++ t
unfolding trim_start
trim_start-name [] t h n = ground arith
trim_start-name (c ∷ rest) t h n = rw ((NameCode-Apart c n.0).no_blank) refl

trim-written : (p : Parameter) → IsValid p → trim (written p) ≡ written p
unfolding trim
trim-written p v =
    ap trim_end (trim_start-name p.name (b'=' ∷ quoted p.value) v.named v.name_codes)
    ∙ trim_end-written [] p

trim-after_blank : (p : Parameter) → IsValid p → trim (32 ∷ written p) ≡ written p
unfolding trim trim_start
trim-after_blank p v = trim-written p v

is_empty-append : (name : Text) (c : ℕ) (t : Text) → is_empty (name ++ c ∷ t) ≡ false
is_empty-append [] c t = refl
is_empty-append (d ∷ name) c t = refl

is_empty-written : (p : Parameter) → is_empty (written p) ≡ false
is_empty-written p = is_empty-append p.name b'=' (quoted p.value)

before_blank-name :
    (name t : Text)
    → All NameCode name
    → any (λ c. c == b'=') (before_blank (name ++ b'=' ∷ t)) ≡ true
before_blank-name [] t n = refl
before_blank-name (c ∷ rest) t n =
    ground (arith, (NameCode-Apart c n.0).no_blank, before_blank-name rest t n.1)

possible_scheme-written :
    (p : Parameter) → IsValid p → possible_scheme (written p) ≡ (none, written p)
unfolding possible_scheme
possible_scheme-written p v = rw (before_blank-name p.name (quoted p.value) v.name_codes) refl

-- The first segment: the scheme, and a parameter after it.
abbrev first_segment : Parameter → Text
first_segment p = codes "Bearer" ++ 32 ∷ written p

abbrev pub pair : Parameter → Text × Text
pair p = (p.name, p.value)

abbrev begun : List (Text × Text) → Scan
begun parameters = record { current_is_bearer = true; found = true; parameters = parameters }

trim-first_segment : (p : Parameter) → trim (first_segment p) ≡ first_segment p
unfolding trim trim_start codes
trim-first_segment p = trim_end-written (codes "Bearer" ++ 32 ∷ []) p

possible_scheme-first_segment :
    (p : Parameter) → possible_scheme (first_segment p) ≡ (some (codes "Bearer"), 32 ∷ written p)
unfolding possible_scheme codes
possible_scheme-first_segment p = refl

on_segment-first_segment :
    (p : Parameter)
    → IsValid p
    → on_segment started (first_segment p) (some (codes "Bearer"), 32 ∷ written p)
      ≡ ok (begun (pair p ∷ []))
unfolding codes
on_segment-first_segment p v =
    rw (trim-after_blank p v, is_empty-written p, parse_parameter-written p v) refl

on_segment-written :
    (p : Parameter) (parameters : List (Text × Text))
    → IsValid p
    → on_segment (begun parameters) (written p) (none, written p)
      ≡ ok (begun (parameters ++ pair p ∷ []))
on_segment-written p parameters v = rw (parse_parameter-written p v) refl

-- A round of the loop, from what it finds in the segment.
scan_segments-step :
    (s : Scan) (segment trimmed : Text) (scheme : Option Text × Text) (rest : List Text)
    (after : Scan)
    → trim segment ≡ trimmed
    → is_empty trimmed ≡ false
    → possible_scheme trimmed ≡ scheme
    → on_segment s trimmed scheme ≡ ok after
    → scan_segments s (segment ∷ rest) ≡ scan_segments after rest
unfolding scan_segments
scan_segments-step s segment trimmed scheme rest after h k m n = rw (h, k, m, n) refl

scan_segments-segments :
    (ps : List Parameter) (parameters : List (Text × Text))
    → All IsValid ps
    → scan_segments (begun parameters) (segments ps) ≡ ok (begun (parameters ++ map pair ps))
unfolding scan_segments
scan_segments-segments [] parameters v = ap (λ l. ok (begun l)) (sym (append-nil parameters))
scan_segments-segments (p ∷ rest) parameters v =
    scan_segments-step (begun parameters) (32 ∷ written p) (written p) (none, written p)
      (segments rest) (begun (parameters ++ pair p ∷ [])) (trim-after_blank p v.0)
      (is_empty-written p) (possible_scheme-written p v.0) (on_segment-written p parameters v.0)
    ∙ scan_segments-segments rest (parameters ++ pair p ∷ []) v.1
    ∙ ap (λ l. ok (begun l)) (append_assoc parameters (pair p ∷ []) (map pair rest))

-- A Bearer challenge, written as the grammar of the header has it, with names in lower case and each value
-- between quotes, where a quote and a backslash stand after a backslash and no code point is a control code,
-- gives back exactly its names and values, in their order, whatever commas, blanks, quotes and backslashes
-- the values have.
pub bearer_parameters-header :
    (p : Parameter) (rest : List Parameter)
    → All IsValid (p ∷ rest)
    → bearer_parameters (header p rest) ≡ ok (some (map pair (p ∷ rest)))
unfolding bearer_parameters
bearer_parameters-header p rest v =
    let scanned =
      scan_segments-step started (first_segment p) (first_segment p)
        (some (codes "Bearer"), 32 ∷ written p) (segments rest) (begun (pair p ∷ []))
        (trim-first_segment p) (is_empty-append (codes "Bearer") 32 (written p))
        (possible_scheme-first_segment p) (on_segment-first_segment p v.0)
      ∙ scan_segments-segments rest (pair p ∷ []) v.1 in
    rw (split_quoted-header p rest v, scanned) refl
