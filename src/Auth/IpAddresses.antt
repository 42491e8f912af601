-- ===== src/Auth/IpAddresses.antt =====
-- crates/auth/src/policy.rs: which addresses are public, and which are of the loopback.
use mcp_loadtest.Base.{
  ℕ, ◌/◌, ◌%◌, Bool, not, ◌&&◌, ◌||◌, Option, none, some, ◌==◌, leb, if◌then◌else◌,
}
use mcp_loadtest.Base.Characters.{within}
use mcp_loadtest.Base.ListOrder.{list_ord}
use mcp_loadtest.Base.Order.{nat_ord}

-- Four octets.
pub record Ipv4Addr : Type 0 where
  pub a : ℕ
  pub b : ℕ
  pub c : ℕ
  pub d : ℕ

-- Eight segments of 16 bits.
pub record Ipv6Addr : Type 0 where
  pub s0 : ℕ
  pub s1 : ℕ
  pub s2 : ℕ
  pub s3 : ℕ
  pub s4 : ℕ
  pub s5 : ℕ
  pub s6 : ℕ
  pub s7 : ℕ

pub data IpAddr : Type 0 where
  ipv4 : Ipv4Addr → IpAddr
  ipv6 : Ipv6Addr → IpAddr

unfoldable pub is_public_ipv4 : Ipv4Addr → Bool
is_public_ipv4 x = not (
    x.a == 0
    || x.a == 10
    || x.a == 127
    || leb 224 x.a
    || (x.a == 100 && within 64 127 x.b)
    || (x.a == 169 && x.b == 254)
    || (x.a == 172 && within 16 31 x.b)
    || (x.a == 192 && x.b == 0 && x.c == 0)
    || (x.a == 192 && x.b == 0 && x.c == 2)
    || (x.a == 192 && x.b == 168)
    || (x.a == 198 && (x.b == 18 || x.b == 19))
    || (x.a == 198 && x.b == 51 && x.c == 100)
    || (x.a == 203 && x.b == 0 && x.c == 113))

-- The octets in two segments.
abbrev pub from_segments : ℕ → ℕ → Ipv4Addr
from_segments g h = record { a = g / 256; b = g % 256; c = h / 256; d = h % 256 }

abbrev pub zeros_until_5 : Ipv6Addr → Bool
zeros_until_5 x = x.s0 == 0 && x.s1 == 0 && x.s2 == 0 && x.s3 == 0 && x.s4 == 0

abbrev pub to_ipv4_mapped : Ipv6Addr → Option Ipv4Addr
to_ipv4_mapped x = if zeros_until_5 x && x.s5 == 65535 then some (from_segments x.s6 x.s7) else none

-- `::n`
abbrev pub is_last : ℕ → Ipv6Addr → Bool
is_last n x = zeros_until_5 x && x.s5 == 0 && x.s6 == 0 && x.s7 == n

-- The prefixes 64:ff9b::/96 and 64:ff9b:1::/48.
abbrev pub is_nat64 : Ipv6Addr → Bool
is_nat64 x =
    x.s0 == 100
    && x.s1 == 65435
    && ((x.s2 == 0 && x.s3 == 0 && x.s4 == 0 && x.s5 == 0) || x.s2 == 1)

unfoldable pub is_non_public_nat64 : Ipv6Addr → Bool
is_non_public_nat64 x = is_nat64 x && not (is_public_ipv4 (from_segments x.s6 x.s7))

-- A mask keeps the first bits of a segment.
unfoldable pub is_public_ipv6 : Ipv6Addr → Bool
unfolding is_non_public_nat64
is_public_ipv6 x = elim (to_ipv4_mapped x) [
  | some mapped ↦ is_public_ipv4 mapped
  | none ↦ not (
      is_last 0 x
      || is_last 1 x
      || x.s0 / 512 == 126
      || x.s0 / 64 == 1018
      || x.s0 / 64 == 1019
      || x.s0 / 256 == 255
      || (x.s0 == 8193 && x.s1 == 3512)
      || is_non_public_nat64 x)
]

unfoldable pub is_public_ip : IpAddr → Bool
unfolding is_public_ipv6
is_public_ip (ipv4 x) = is_public_ipv4 x
is_public_ip (ipv6 x) = is_public_ipv6 x

abbrev pub is_loopback : IpAddr → Bool
is_loopback (ipv4 x) = x.a == 127
is_loopback (ipv6 x) = is_last 1 x
