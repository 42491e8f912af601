-- ===== src/Output/History/Series.antt =====
-- `validate_series_name` and `validate_run_id` of crates/output/src/history/types.rs.
use mcp_loadtest.Base.{
  ℕ, ◌+◌, ◌-◌, ◌*◌, Bool, true, false, not, ◌&&◌, ◌||◌, List, [], ◌∷◌, all, is_empty, Option, none,
  some, String, ltb, ◌==◌, if◌then◌else◌, Result, ok, err, ◌>>◌, reject, ◌≡◌, refl,
}
use mcp_loadtest.Base.Characters.{codes, within, is_digit, is_alphanumeric}
use mcp_loadtest.Output.History.Types.{Error, invalid_series, invalid_run_id}

-- The bytes of a text, of which an ASCII character has one.
abbrev byte_len : List ℕ → ℕ
byte_len [] = 0
byte_len (n ∷ rest) =
    (if ltb n 128 then 1 else if ltb n 2048 then 2 else if ltb n 65536 then 3 else 4)
    + byte_len rest

abbrev is_series_code : ℕ → Bool
is_series_code n = is_alphanumeric n || n == b'.' || n == b'_' || n == b'-'

abbrev starts_well : List ℕ → Bool
starts_well [] = false
starts_well (n ∷ rest) = is_alphanumeric n

-- `split('.').next()`
abbrev before_dot : List ℕ → List ℕ
before_dot [] = []
before_dot (n ∷ rest) = if n == b'.' then [] else n ∷ before_dot rest

abbrev upper : ℕ → ℕ
upper n = if within b'a' b'z' n then n - 32 else n

abbrev to_uppercase : List ℕ → List ℕ
to_uppercase [] = []
to_uppercase (n ∷ rest) = upper n ∷ to_uppercase rest

abbrev same_codes : List ℕ → List ℕ → Bool
same_codes [] [] = true
same_codes (m ∷ rest) (n ∷ others) = m == n && same_codes rest others
same_codes _ _ = false

abbrev strip_prefix : List ℕ → List ℕ → Option (List ℕ)
strip_prefix [] text = some text
strip_prefix (m ∷ prefix) [] = none
strip_prefix (m ∷ prefix) (n ∷ text) = if m == n then strip_prefix prefix text else none

-- `parse::<u8>()` of a text without a sign: digits, at least one, of a number below 256.
abbrev number_from : ℕ → List ℕ → Option ℕ
number_from value [] = if ltb value 256 then some value else none
number_from value (n ∷ rest) =
    let more = number_from (10 * value + (n - 48)) rest in if is_digit n then more else none

abbrev parse_u8 : List ℕ → Option ℕ
parse_u8 [] = none
parse_u8 (n ∷ rest) = number_from 0 (n ∷ rest)

-- `COM1` to `COM9`, and so for `LPT`.
abbrev numbered : List ℕ → List ℕ → Bool
numbered prefix stem = elim (strip_prefix prefix stem) [
  | none ↦ false
  | some suffix ↦ elim (parse_u8 suffix) [ none ↦ false | some n ↦ within 1 9 n ]
]

unfoldable pub is_reserved : List ℕ → Bool
is_reserved stem =
    same_codes stem (codes "CON")
    || same_codes stem (codes "PRN")
    || same_codes stem (codes "AUX")
    || same_codes stem (codes "NUL")
    || numbered (codes "COM") stem
    || numbered (codes "LPT") stem

unfoldable pub validate_series_name : String → Result Error (Unit {0})
unfolding is_reserved codes
validate_series_name value = do
  let text = codes value
  reject (is_empty text || ltb 64 (byte_len text))
      (invalid_series "must contain between 1 and 64 ASCII characters")
  reject (not (starts_well text) || not (all is_series_code text)) (
      invalid_series
        "must start with an alphanumeric and contain only alphanumerics, '.', '_' or '-'")
  reject (is_reserved (to_uppercase (before_dot text)))
      (invalid_series "is a reserved Windows device name")
  ok tt

abbrev is_id_code : ℕ → Bool
is_id_code n = is_alphanumeric n || n == b'_' || n == b'-'

unfoldable pub validate_run_id : String → Result Error (Unit {0})
unfolding codes
validate_run_id value =
    let text = codes value in
    if is_empty text || ltb 64 (byte_len text) || not (all is_id_code text)
    then err invalid_run_id
    else ok tt

abbrev refused : String → Bool
refused name = elim (validate_series_name name) [ ok _ ↦ false | err _ ↦ true ]

reserved_name : refused "com1.main" ≡ true
unfolding validate_series_name
reserved_name = refl

free_name : refused "com10" ≡ false
unfolding validate_series_name
free_name = refl
