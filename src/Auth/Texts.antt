-- ===== src/Auth/Texts.antt =====
-- What crates/auth/src uses of `str`, on code points.
use mcp_loadtest.Base.{
  ℕ, ◌+◌, Bool, true, false, ◌&&◌, List, [], ◌∷◌, is_empty, Option, none, some, ◌==◌, if◌then◌else◌,
}
use mcp_loadtest.Base.Characters.{within, is_whitespace}

abbrev pub Text : Type 0
Text = List ℕ

unfoldable pub trim_start : Text → Text
trim_start [] = []
trim_start (c ∷ rest) = let later = trim_start rest in if is_whitespace c then later else c ∷ rest

unfoldable pub trim_end : Text → Text
trim_end [] = []
trim_end (c ∷ rest) =
    let kept = trim_end rest in if is_empty kept && is_whitespace c then [] else c ∷ kept

unfoldable pub trim : Text → Text
unfolding trim_start trim_end
trim s = trim_end (trim_start s)

abbrev pub lower : ℕ → ℕ
lower c = if within b'A' b'Z' c then c + 32 else c

-- `to_ascii_lowercase`
abbrev pub to_lowercase : Text → Text
to_lowercase [] = []
to_lowercase (c ∷ rest) = lower c ∷ to_lowercase rest

abbrev pub same_text : Text → Text → Bool
same_text [] [] = true
same_text (c ∷ s) (d ∷ t) = c == d && same_text s t
same_text _ _ = false

abbrev pub onto_left : ℕ → Option (Text × Text) → Option (Text × Text)
onto_left c none = none
onto_left c (some (a, b)) = some (c ∷ a, b)

-- `split_once`, at the first code point that is `mark`.
unfoldable pub split_once : ℕ → Text → Option (Text × Text)
split_once mark [] = none
split_once mark (c ∷ rest) =
    let later = onto_left c (split_once mark rest) in if c == mark then some ([], rest) else later
