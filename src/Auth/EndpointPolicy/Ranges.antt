-- ===== src/Auth/EndpointPolicy/Ranges.antt =====
-- The addresses of version 4 that are not public (crates/auth/src/policy.rs), as blocks of numbers.
use mcp_loadtest.Base.{ℕ, ◌+◌, ◌*◌, ◌<◌, Bool, not, ◌&&◌, ◌||◌, ◌≡◌, arith, ◌==◌, leb, ltb}
use mcp_loadtest.Base.Characters.{within}
use mcp_loadtest.Auth.IpAddresses.{Ipv4Addr, is_public_ipv4}

abbrev pub to_bits : Ipv4Addr → ℕ
to_bits x = x.a * 16777216 + x.b * 65536 + x.c * 256 + x.d

pub record AreOctets (x : Ipv4Addr) : Type 0 where
  pub a_below : x.a < 256
  pub b_below : x.b < 256
  pub c_below : x.c < 256
  pub d_below : x.d < 256

-- A block in CIDR notation: a.b.c.0/24 and the like, with the number of addresses in it.
abbrev block : ℕ → ℕ → ℕ → ℕ → ℕ → Bool
block n a b c size = let low = a * 16777216 + b * 65536 + c * 256 in leb low n && ltb n (low + size)

abbrev pub in_reserved_block : ℕ → Bool
in_reserved_block n =
    block n 0 0 0 16777216
    || block n 10 0 0 16777216
    || block n 127 0 0 16777216
    || block n 224 0 0 536870912
    || block n 100 64 0 4194304
    || block n 169 254 0 65536
    || block n 172 16 0 1048576
    || block n 192 0 0 256
    || block n 192 0 2 256
    || block n 192 168 0 65536
    || block n 198 18 0 131072
    || block n 198 51 100 256
    || block n 203 0 113 256

module _ (x : Ipv4Addr) (o : AreOctets x) where
  by_first : (k : ℕ) → (x.a == k) ≡ block (to_bits x) k 0 0 16777216
  by_first k = ground (arith, o.b_below, o.c_below, o.d_below)

  from_first : leb 224 x.a ≡ block (to_bits x) 224 0 0 536870912
  from_first = ground (arith, o.a_below, o.b_below, o.c_below, o.d_below)

  by_two : (k m : ℕ) → m < 256 → (x.a == k && x.b == m) ≡ block (to_bits x) k m 0 65536
  by_two k m h = ground (arith, o.b_below, o.c_below, o.d_below)

  by_three :
      (k m p : ℕ)
      → m < 256
      → p < 256
      → (x.a == k && x.b == m && x.c == p) ≡ block (to_bits x) k m p 256
  by_three k m p h i = ground (arith, o.b_below, o.c_below, o.d_below)

  shared : (x.a == 100 && within 64 127 x.b) ≡ block (to_bits x) 100 64 0 4194304
  shared = ground (arith, o.b_below, o.c_below, o.d_below)

  private : (x.a == 172 && within 16 31 x.b) ≡ block (to_bits x) 172 16 0 1048576
  private = ground (arith, o.b_below, o.c_below, o.d_below)

  benchmarks : (x.a == 198 && (x.b == 18 || x.b == 19)) ≡ block (to_bits x) 198 18 0 131072
  benchmarks = ground (arith, o.b_below, o.c_below, o.d_below)

  -- An address of four octets is public exactly if its number is in none of the blocks 0.0.0.0/8, 10.0.0.0/8,
  -- 127.0.0.0/8, 224.0.0.0/3, 100.64.0.0/10, 169.254.0.0/16, 172.16.0.0/12, 192.0.0.0/24, 192.0.2.0/24,
  -- 192.168.0.0/16, 198.18.0.0/15, 198.51.100.0/24 and 203.0.113.0/24.
  pub is_public_ipv4-block : is_public_ipv4 x ≡ not (in_reserved_block (to_bits x))
  unfolding is_public_ipv4
  is_public_ipv4-block = cc (
    by_first 0,
    by_first 10,
    by_first 127,
    from_first,
    shared,
    by_two 169 254 (omega arith),
    private,
    by_three 192 0 0 (omega arith) (omega arith),
    by_three 192 0 2 (omega arith) (omega arith),
    by_two 192 168 (omega arith),
    benchmarks,
    by_three 198 51 100 (omega arith) (omega arith),
    by_three 203 0 113 (omega arith) (omega arith),
  )
