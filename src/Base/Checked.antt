-- ===== src/Base/Checked.antt =====
-- `checked_add` on `u32` and `u64`.
use Prim.Native.Nat.{ℕ, ◌+◌, ◌<◌}
use mathlib.Core.Path.{◌≡◌}
use mathlib.Core.Option.{Option, none, some}
use native.Mathlib.Omega.{arith}
use mcp_loadtest.Base.Tests.{ltb, if◌then◌else◌}

abbrev pub u32_limit : ℕ
u32_limit = 4294967296

abbrev pub u64_limit : ℕ
u64_limit = 18446744073709551616

-- The sum, if it is below the limit of the type.
unfoldable pub checked_add : ℕ → ℕ → ℕ → Option ℕ
checked_add limit a b = if ltb (a + b) limit then some (a + b) else none

pub checked_add_exact :
    (limit a b : ℕ) {c : ℕ} → checked_add limit a b ≡ some c → (c ≡ a + b) × (c < limit)
unfolding checked_add
checked_add_exact limit a b h = ground arith
