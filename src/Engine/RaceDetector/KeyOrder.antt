-- ===== src/Engine/RaceDetector/KeyOrder.antt =====
-- The canonical form (crates/engine/src/race_detector.rs) forgets the order of an object's keys.
use mcp_loadtest.Base.{String, List, [], ◌∷◌, ◌≡◌, ◌≢◌, ap, arith, concat, true}
use mcp_loadtest.Base.Order.{str_ord, same_iff}
use mcp_loadtest.Base.Map.{insert, get-insert, insert-IsSorted, IsSorted, ext}
use mcp_loadtest.Base.Json.{Value, Fields, field, object}
use mcp_loadtest.Engine.RaceDetector.{SerdeJson, canonicalize, canonical_fields, members, joined}

-- Two neighbours with different keys change places.
pub data Swap : Fields → Fields → Type 0 where
  here :
      (k j : String) (v w : Value) (rest : Fields)
      → k ≢ j
      → Swap (field k v (field j w rest)) (field j w (field k v rest))
  there : (k : String) (v : Value) (f g : Fields) → Swap f g → Swap (field k v f) (field k v g)

insert_twice :
    (k j a b : String) (m : List (String × String))
    → k ≢ j
    → IsSorted m
    → insert j b (insert k a m) ≡ insert k a (insert j b m)
insert_twice k j a b m other s =
    ext (insert j b (insert k a m)) (insert k a (insert j b m))
      (insert-IsSorted j b (insert k a m) (insert-IsSorted k a m s))
      (insert-IsSorted k a (insert j b m) (insert-IsSorted j b m s))
      λ i. ground (
        arith,
        get-insert i j b (insert k a m),
        get-insert i k a m,
        get-insert i k a (insert j b m),
        get-insert i j b m,
        same_iff i j,
        same_iff i k,
        other,
      )

canonical_fields-Swap :
    (lib : SerdeJson) (f g : Fields) (m : List (String × String))
    → Swap f g
    → IsSorted m
    → canonical_fields lib f m ≡ canonical_fields lib g m
unfolding canonicalize
canonical_fields-Swap lib f g m (here k j v w rest other) s =
    ap (canonical_fields lib rest)
      (insert_twice k j (canonicalize lib v) (canonicalize lib w) m other s)
canonical_fields-Swap lib f g m (there k v f' g' swap) s =
    canonical_fields-Swap lib f' g' (insert k (canonicalize lib v) m) swap
      (insert-IsSorted k (canonicalize lib v) m s)

-- An object keeps its canonical form when two neighbouring entries with different keys change places,
-- at any depth of the list of its entries.
pub canonicalize-Swap :
    (lib : SerdeJson) (f g : Fields)
    → Swap f g
    → canonicalize lib (object f) ≡ canonicalize lib (object g)
unfolding canonicalize
canonicalize-Swap lib f g swap =
    ap (λ (m : List (String × String)). concat ("{" ∷ joined true (members lib m) ∷ "}" ∷ []))
      (canonical_fields-Swap lib f g [] swap tt)
