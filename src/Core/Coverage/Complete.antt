-- ===== src/Core/Coverage/Complete.antt =====
-- What a coverage report (crates/core/src/coverage.rs) lists.
use mcp_loadtest.Base.{
  ℕ, ◌+◌, ◌<◌, Bool, not, ◌&&◌, List, [], ◌∷◌, any, length, filter, String, ◌≡◌, refl, ◌==◌, str_eq,
  str_eq_iff, arith, Option-cases, Bool-cases, inl, inr, ◌∙◌, ap, sym,
}
use mcp_loadtest.Base.Order.{str_ord}
use mcp_loadtest.Base.Map.{get, Every, Every-get}
use mcp_loadtest.Base.Sets.{holds}
use mcp_loadtest.Base.Sorted.{InOrder, sort_by-InOrder, any-sort_by, length-sort_by}
use mcp_loadtest.Core.Coverage.{CoverageReport, calls_of, build}

abbrev pub covered : CoverageReport → ℕ
covered c = length (filter (λ t. holds t c.exercised) c.registered)

-- The tools that are listed as not exercised.
pub record Complete (registered : List String) (exercised : List (String × ℕ)) : Type 0 where
  pub listed :
      (t : String)
      → any (str_eq t) (build registered exercised).unexercised
        ≡ (any (str_eq t) registered && calls_of exercised t == 0)
  pub ascending : InOrder (λ name. name) (build registered exercised).unexercised
  pub parted :
      covered (build registered exercised) + length (build registered exercised).unexercised
      ≡ length registered

any-filter :
    (t : String) (p : String → Bool) (l : List String)
    → any (str_eq t) (filter p l) ≡ (any (str_eq t) l && p t)
any-filter t p [] = refl
any-filter t p (x ∷ l) = elim (Bool-cases (str_eq t x)) [
  | inl h ↦
      let same_tool : p x ≡ p t = ap p (sym ((str_eq_iff t x).0 h)) in
      ground (arith, h, same_tool, any-filter t p l)
  | inr h ↦ ground (arith, h, any-filter t p l)
]

calls_of-holds :
    (exercised : List (String × ℕ)) (t : String)
    → Every (λ name calls. 0 < calls) exercised
    → holds t exercised ≡ not (calls_of exercised t == 0)
calls_of-holds exercised t e = elim (Option-cases (get t exercised)) [
  | inl h ↦ ground (arith, h)
  | inr (n, h) ↦ ground (arith, h, Every-get (λ name calls. 0 < calls) t n exercised e h)
]

length-parts :
    (exercised : List (String × ℕ)) (l : List String)
    → Every (λ name calls. 0 < calls) exercised
    → length (filter (λ t. holds t exercised) l)
        + length (filter (λ name. calls_of exercised name == 0) l)
      ≡ length l
length-parts exercised [] e = refl
length-parts exercised (x ∷ l) e =
    ground (arith, calls_of-holds exercised x e, length-parts exercised l e)

-- If every count of a call is positive, exactly the registered tools that no call has gone to are listed as
-- not exercised, in ascending order, and each registered tool is either counted as covered or listed.
pub build-Complete :
    (registered : List String) (exercised : List (String × ℕ))
    → Every (λ name calls. 0 < calls) exercised
    → Complete registered exercised
unfolding build
build-Complete registered exercised e =
    let untouched = filter (λ name. calls_of exercised name == 0) registered in
    record {
      listed = λ t.
          any-sort_by (λ name. name) (str_eq t) untouched
          ∙ any-filter t (λ name. calls_of exercised name == 0) registered;
      ascending = sort_by-InOrder (λ name. name) untouched;
      parted =
          ap (λ n. length (filter (λ t. holds t exercised) registered) + n)
            (length-sort_by (λ name. name) untouched)
          ∙ length-parts exercised registered e;
    }
