-- ===== src/Core/Coverage/Tests.antt =====
-- A run that called one of three tools (as in the tests of crates/core/src/coverage.rs).
use mcp_loadtest.Base.{ℕ, List, [], ◌∷◌, String, ◌≡◌, refl, arith}
use mcp_loadtest.Base.Map.{get}
use mcp_loadtest.Base.Sorting.{sort_by, place, before}
use mcp_loadtest.Core.Coverage.{CoverageReport, build}
use mcp_loadtest.Core.Coverage.Complete.{Complete, build-Complete, covered}

abbrev registered : List String
registered = "c" ∷ "a" ∷ "b" ∷ []

abbrev exercised : List (String × ℕ)
exercised = ("a", 5) ∷ []

others_are_listed : CoverageReport.unexercised (build registered exercised) ≡ "b" ∷ "c" ∷ []
unfolding build sort_by place before get
others_are_listed = refl

-- A tool with a count of zero is counted as covered, and listed as not exercised.
abbrev never : List (String × ℕ)
never = ("a", 0) ∷ []

never_is_covered : covered (build ("a" ∷ []) never) ≡ 1
unfolding build get
never_is_covered = refl

never_is_listed : CoverageReport.unexercised (build ("a" ∷ []) never) ≡ "a" ∷ []
unfolding build sort_by place before get
never_is_listed = refl

build-Complete_example : Complete registered exercised
build-Complete_example = build-Complete registered exercised (omega arith, tt)
