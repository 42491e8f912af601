-- ===== src/Base/Address.antt =====
-- `IpAddr`, parsed as the standard library parses it.
use Prim.Native.Nat.{ℕ, zero, suc, ◌+◌, ◌-◌, ◌*◌}
use Prim.Native.String.{String}
use mathlib.Core.Bool.{Bool, true, false, ◌&&◌, ◌||◌}
use mathlib.Core.List.{List, [], ◌∷◌, ◌++◌}
use mathlib.Core.Option
use mathlib.Core.Option.{Option, none, some}
use mathlib.Core.Path.{◌≡◌, refl, sym, subst}
use mcp_loadtest.Base.Tests.{ltb, ◌==◌, if◌then◌else◌}
use mcp_loadtest.Base.Lists.{length}
use mcp_loadtest.Base.Characters.{within, is_digit, codes}

pub data Ip : Type 0 where
  v4 : (a b c d : ℕ) → Ip
  v6 : (groups : List ℕ) → Ip

-- The value of a digit, if it is one.
abbrev decimal_digit : ℕ → Option ℕ
decimal_digit n = if is_digit n then some (n - 48) else none

abbrev hex_digit : ℕ → Option ℕ
hex_digit n =
    if is_digit n
    then some (n - 48)
    else if within 97 102 n
    then some (n - 87)
    else if within 65 70 n
    then some (n - 55)
    else none

-- The digits at the front, and what follows them.
digits : (ℕ → Option ℕ) → List ℕ → List ℕ × List ℕ
digits f [] = ([], [])
digits f (c ∷ cs) =
    let rest = digits f cs in elim (f c) [ none ↦ ([], c ∷ cs) | some d ↦ (d ∷ rest.0, rest.1) ]

value : ℕ → ℕ → List ℕ → ℕ
value radix n [] = n
value radix n (d ∷ ds) = value radix (n * radix + d) ds

abbrev starts_with_zero : List ℕ → Bool
starts_with_zero [] = false
starts_with_zero (d ∷ ds) = d == 0

-- At most three digits, no zero before another, at most 255.
octet : List ℕ → Option (ℕ × List ℕ)
unfolding digits value
octet cs =
    let (ds, rest) = digits decimal_digit cs in
    if length ds == 0
      || ltb 3 (length ds)
      || (starts_with_zero ds && ltb 1 (length ds))
      || ltb 255 (value 10 0 ds)
    then none
    else some (value 10 0 ds, rest)

-- One to four digits.
group : List ℕ → Option (ℕ × List ℕ)
unfolding digits value
group cs =
    let (ds, rest) = digits hex_digit cs in
    if length ds == 0 || ltb 4 (length ds) then none else some (value 16 0 ds, rest)

-- This character, and what follows it.
abbrev given : ℕ → List ℕ → Option (List ℕ)
given c [] = none
given c (d ∷ ds) = if c == d then some ds else none

abbrev after_dot : List ℕ → Option (ℕ × List ℕ)
after_dot cs = Option.bind (given 46 cs) octet

read_v4 : List ℕ → Option ((ℕ × ℕ × ℕ × ℕ) × List ℕ)
unfolding octet
read_v4 cs = Option.bind (octet cs) λ a. Option.bind (after_dot a.1) λ b.
    Option.bind (after_dot b.1)
      λ c. Option.bind (after_dot c.1) λ d. some ((a.0, b.0, c.0, d.0), d.1)

-- A colon before every part but the first.
abbrev separated : Bool → List ℕ → Option (List ℕ)
separated true cs = some cs
separated false cs = given 58 cs

-- `read_groups`: at most `n` groups, of which the last two may be written as a version 4 address; the
-- groups, whether they end so, and what follows them.
read_groups : ℕ → Bool → List ℕ → List ℕ × Bool × List ℕ
unfolding read_v4 group
read_groups zero first cs = ([], false, cs)
read_groups (suc n) first cs =
    let four = if ltb 0 n then Option.bind (separated first cs) read_v4 else none in
    let next = Option.bind (separated first cs) group in
    elim four [
      | some r ↦ ((r.0.0 * 256 + r.0.1) ∷ (r.0.2 * 256 + r.0.3) ∷ [], true, r.1)
      | none ↦ elim next [
        | none ↦ ([], false, cs)
        | some r ↦ let more = read_groups n false r.1 in (r.0 ∷ more.0, more.1, more.2)
      ]
    ]

abbrev zeros : ℕ → List ℕ
zeros zero = []
zeros (suc n) = 0 ∷ zeros n

read_v6 : List ℕ → Option (List ℕ × List ℕ)
unfolding read_groups
read_v6 cs =
    let head = read_groups 8 true cs in
    if length head.0 == 8
    then some (head.0, head.2)
    else if head.1
    then none
    else Option.bind (Option.bind (given 58 head.2) (given 58)) λ rest.
      let tail = read_groups (7 - length head.0) true rest in
      some (head.0 ++ zeros (8 - (length head.0 + length tail.0)) ++ tail.0, tail.2)

abbrev at_end {ℓ} : {A : Type ℓ} → A → List ℕ → Option A
at_end a [] = some a
at_end a (c ∷ cs) = none

unfoldable pub parse : String → Option Ip
unfolding read_v4 read_v6
parse text = elim (read_v4 (codes text)) [
  | some r ↦ at_end (v4 r.0.0 r.0.1 r.0.2 r.0.3) r.1
  | none ↦ Option.bind (read_v6 (codes text)) λ r. at_end (v6 r.0) r.1
]

-- No address begins with a bracket.
pub parse-bracket : (text : String) (rest : List ℕ) → codes text ≡ 91 ∷ rest → parse text ≡ none
unfolding parse read_v4 read_v6 read_groups octet group digits Option.bind
parse-bracket text rest h =
    subst
      (λ cs.
        elim (read_v4 cs) [
          | some r ↦ at_end (v4 r.0.0 r.0.1 r.0.2 r.0.3) r.1
          | none ↦ Option.bind (read_v6 cs) λ r. at_end (v6 r.0) r.1
        ]
        ≡ none)
      (sym h) refl

local : parse "127.0.0.1" ≡ some (v4 127 0 0 1)
unfolding parse codes Option.bind
local = refl

no_octal : parse "127.0.0.01" ≡ none
unfolding parse codes Option.bind
no_octal = refl

local_six : parse "::1" ≡ some (v6 (0 ∷ 0 ∷ 0 ∷ 0 ∷ 0 ∷ 0 ∷ 0 ∷ 1 ∷ []))
unfolding parse codes Option.bind
local_six = refl

mixed : parse "fe80::1:10.0.0.1" ≡ some (v6 (65152 ∷ 0 ∷ 0 ∷ 0 ∷ 0 ∷ 1 ∷ 2560 ∷ 1 ∷ []))
unfolding parse codes Option.bind
mixed = refl

bracketed : parse "[::1]" ≡ none
unfolding parse codes Option.bind
bracketed = refl
