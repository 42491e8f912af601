-- ===== src/Base/Characters.antt =====
-- Tests on characters by their codes, and texts in lower case (ASCII letters only).
use Prim.Native.Nat.{ℕ, ◌-◌}
use Prim.Native.Char.{Char, code}
use Prim.Native.String.{String, char_at}
use mathlib.Core.Bool.{Bool, ◌&&◌, ◌||◌}
use mathlib.Core.List.{List, [], ◌∷◌}
use mcp_loadtest.Base.Tests.{leb, ◌==◌, if◌then◌else◌}

abbrev pub within : ℕ → ℕ → ℕ → Bool
within low high n = leb low n && leb n high

abbrev pub is_digit : ℕ → Bool
is_digit n = within 48 57 n

abbrev pub is_alphabetic : ℕ → Bool
is_alphabetic n = within 65 90 n || within 97 122 n

abbrev pub is_alphanumeric : ℕ → Bool
is_alphanumeric n = is_alphabetic n || is_digit n

-- `char::is_control`
abbrev pub is_control : ℕ → Bool
is_control n = leb n 31 || within 127 159 n

-- `char::is_whitespace`
abbrev pub is_whitespace : ℕ → Bool
is_whitespace n =
    within 9 13 n
    || n == 32
    || n == 133
    || n == 160
    || n == 5760
    || within 8192 8202 n
    || within 8232 8233 n
    || n == 8239
    || n == 8287
    || n == 12288

unfoldable pub codes : String → List ℕ
codes String.[] = []
codes (String.◌∷◌ c s) = code c ∷ codes s

abbrev lower : Char → Char
lower c = if within 65 90 (code c) then char_at "abcdefghijklmnopqrstuvwxyz" (code c - 65) else c

-- `to_ascii_lowercase`
unfoldable pub to_lowercase : String → String
to_lowercase String.[] = String.[]
to_lowercase (String.◌∷◌ c s) = String.◌∷◌ (lower c) (to_lowercase s)
