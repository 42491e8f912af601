-- ===== src/Engine/RaceDetector.antt =====
-- crates/engine/src/race_detector.rs: how many different answers the same call got.
pub mod Groups
pub mod Grouped
pub mod KeyOrder
mod Tests
use mcp_loadtest.Base.{
  ℕ, suc, ◌+◌, String, Bool, true, false, ◌&&◌, ◌||◌, List, [], ◌∷◌, ◌++◌, Option, none, some,
  Result, ok, err, ltb, ◌==◌, if◌then◌else◌, length, concat,
}
use Prim.Native.Nat.{Ordering}
use mcp_loadtest.Base.Order.{str_ord}
use mcp_loadtest.Base.Map.{get, insert}
use mcp_loadtest.Base.Json.{
  Number, Value, Items, Fields, null, boolean, number, text, array, object, nil, cons, end, field,
}

-- What the code uses of `serde_json`: the text of a number, and a text as a JSON text.
pub record SerdeJson : Type 0 where
  pub number_text : Number → String
  pub to_string : String → Result (Unit {0}) String

pub record DivergenceReport : Type 0 where
  pub total_responses : ℕ
  pub unique_responses : ℕ
  pub samples : List (ℕ × String)
  pub diverged : Bool

abbrev pub no_responses : DivergenceReport
no_responses = record { total_responses = 0; unique_responses = 0; samples = []; diverged = false }

abbrev quoted : SerdeJson → String → String
quoted lib s = elim (lib.to_string s) [ ok t ↦ t | err e ↦ concat ("\"" ∷ s ∷ "\"" ∷ []) ]

-- The parts with commas between them.
abbrev pub joined : Bool → List String → String
joined first [] = ""
joined true (s ∷ rest) = concat (s ∷ joined false rest ∷ [])
joined false (s ∷ rest) = concat ("," ∷ s ∷ joined false rest ∷ [])

abbrev pub members : SerdeJson → List (String × String) → List String
members lib [] = []
members lib ((k, v) ∷ rest) = concat (quoted lib k ∷ ":" ∷ v ∷ []) ∷ members lib rest

-- `write_canonical`, and its loops over the items of an array and the entries of an object, which a
-- `BTreeMap` has in the order of their keys.
unfoldable mutual
  pub canonicalize : SerdeJson → Value → String
  canonicalize lib null = "null"
  canonicalize lib (boolean b) = if b then "true" else "false"
  canonicalize lib (number n) = lib.number_text n
  canonicalize lib (text s) = quoted lib s
  canonicalize lib (array items) = concat ("[" ∷ joined true (canonical_items lib items) ∷ "]" ∷ [])
  canonicalize lib (object fields) =
      concat ("{" ∷ joined true (members lib (canonical_fields lib fields [])) ∷ "}" ∷ [])

  pub canonical_items : SerdeJson → Items → List String
  canonical_items lib nil = []
  canonical_items lib (cons v rest) = canonicalize lib v ∷ canonical_items lib rest

  pub canonical_fields : SerdeJson → Fields → List (String × String) → List (String × String)
  canonical_fields lib end sorted = sorted
  canonical_fields lib (field k v rest) sorted =
      canonical_fields lib rest (insert k (canonicalize lib v) sorted)

abbrev pub seen : Option ℕ → ℕ
seen none = 0
seen (some n) = n

-- `*groups.entry(canonical).or_insert(0) += 1`, for each response.
unfoldable pub group : SerdeJson → List Value → List (String × ℕ) → List (String × ℕ)
group lib [] groups = groups
group lib (v ∷ rest) groups =
    let canonical = canonicalize lib v in
    group lib rest (insert canonical (suc (seen (get canonical groups))) groups)

-- More occurrences first, then the lesser text.
abbrev pub before : ℕ × String → ℕ × String → Bool
before (n, s) (m, t) =
    ltb m n || (n == m && elim (str_ord.cmp s t) [ Ordering.gt ↦ false | _ ↦ true ])

unfoldable pub place : ℕ × String → List (ℕ × String) → List (ℕ × String)
place x [] = x ∷ []
place x (y ∷ rest) = let further = place x rest in if before x y then x ∷ y ∷ rest else y ∷ further

abbrev pub turned : List (String × ℕ) → List (ℕ × String)
turned [] = []
turned ((s, n) ∷ rest) = (n, s) ∷ turned rest

-- `sort_by`
unfoldable pub sorted : List (ℕ × String) → List (ℕ × String)
sorted [] = []
sorted (x ∷ rest) = place x (sorted rest)

unfoldable pub analyze : SerdeJson → List Value → DivergenceReport
analyze lib [] = no_responses
analyze lib (v ∷ rest) =
    let samples = sorted (turned (group lib (v ∷ rest) [])) in
    record {
      total_responses = length (v ∷ rest);
      unique_responses = length samples;
      samples = samples;
      diverged = ltb 1 (length samples);
    }
