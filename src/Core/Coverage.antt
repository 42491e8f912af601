-- ===== src/Core/Coverage.antt =====
-- crates/core/src/coverage.rs: which of the server's tools a run has called.
pub mod Complete
mod Tests
use mcp_loadtest.Base.{ℕ, ◌==◌, List, is_empty, length, filter, String, none, some, if◌then◌else◌}
use mcp_loadtest.Base.Float.{F64, of_nat, div, mul}
use mcp_loadtest.Base.Order.{str_ord}
use mcp_loadtest.Base.Map.{get}
use mcp_loadtest.Base.Sets.{holds}
use mcp_loadtest.Base.Sorting.{sort_by}

pub record CoverageReport : Type 0 where
  pub registered : List String
  pub exercised : List (String × ℕ)
  pub unexercised : List String

abbrev pub calls_of : List (String × ℕ) → String → ℕ
calls_of exercised name = elim (get name exercised) [ none ↦ 0 | some n ↦ n ]

unfoldable pub coverage_pct : CoverageReport → F64
coverage_pct c =
    if is_empty c.registered
    then of_nat 100
    else mul
        (div (of_nat (length (filter (λ t. holds t c.exercised) c.registered)))
          (of_nat (length c.registered)))
        (of_nat 100)

unfoldable pub build : List String → List (String × ℕ) → CoverageReport
build registered exercised = record {
  registered = registered;
  exercised = exercised;
  unexercised = sort_by (λ name. name) (filter (λ name. calls_of exercised name == 0) registered);
}
