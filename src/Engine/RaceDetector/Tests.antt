-- ===== src/Engine/RaceDetector/Tests.antt =====
-- Three answers of which one diverges, and the same object with its keys in another order.
use mcp_loadtest.Base.{String, List, [], ◌∷◌, ok, concat, decimal, ◌≡◌, ◌≢◌, refl, str_eq, ap}
use mcp_loadtest.Base.Order.{str_ord}
use mcp_loadtest.Base.Map.{get, insert}
use mcp_loadtest.Base.Json.{
  Number, Value, Fields, pos_int, neg_int, float, number, object, end, field,
}
use mcp_loadtest.Engine.RaceDetector.{SerdeJson, canonicalize, group, place, sorted, analyze}
use mcp_loadtest.Engine.RaceDetector.Grouped.{Grouped, analyze-Grouped}
use mcp_loadtest.Engine.RaceDetector.KeyOrder.{here, canonicalize-Swap}

-- Texts that need no escape, and whole numbers.
abbrev plain_text : Number → String
plain_text (pos_int n) = decimal n
plain_text (neg_int n) = concat ("-" ∷ decimal n ∷ [])
plain_text (float x) = "0.0"

abbrev plain : SerdeJson
plain = record { number_text = plain_text; to_string = λ s. ok (concat ("\"" ∷ s ∷ "\"" ∷ [])) }

abbrev one : Value
one = number (pos_int 1)

abbrev ab : Fields
ab = field "a" one (field "b" (number (pos_int 2)) end)

abbrev ba : Fields
ba = field "b" (number (pos_int 2)) (field "a" one end)

abbrev answers : List Value
answers = object ab ∷ one ∷ object ba ∷ []

answers_diverge : (analyze plain answers).samples ≡ (2, "{\"a\":1,\"b\":2}") ∷ (1, "1") ∷ []
unfolding analyze group place sorted canonicalize get insert decimal
answers_diverge = refl

analyze-Grouped_example : Grouped plain answers (analyze plain answers)
analyze-Grouped_example = analyze-Grouped plain answers

a_is_not_b : ◌≢◌ {A = String} "a" "b"
unfolding str_eq
a_is_not_b e = cc (ap (λ s. str_eq s "b") e)

canonicalize-Swap_example : canonicalize plain (object ab) ≡ canonicalize plain (object ba)
canonicalize-Swap_example =
    canonicalize-Swap plain ab ba (here "a" "b" one (number (pos_int 2)) end a_is_not_b)
