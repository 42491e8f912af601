-- ===== src/Distributed/Policy/Addresses.antt =====
-- Which addresses crates/distributed/src/policy.rs does not take for restricted.
use mcp_loadtest.Base.{ℕ, ◌≤◌, ◌<◌, String, false, List, [], ◌∷◌, some, ◌≡◌, ◌≢◌, ◌⊎◌, arith}
use mcp_loadtest.Base.Address.{Ip, v4, v6, parse}
use mcp_loadtest.Distributed.Policy.Checks.{is_restricted_ip, first_group}
use mcp_loadtest.Distributed.Policy.{is_restricted}

-- Outside 10.0.0.0/8, 127.0.0.0/8, 172.16.0.0/12, 192.168.0.0/16, 169.254.0.0/16, 224.0.0.0/4, and neither
-- 0.0.0.0 nor 255.255.255.255.
pub record OpenFour (a b c d : ℕ) : Type 0 where
  pub not_ten : a ≢ 10
  pub not_loopback : a ≢ 127
  pub not_private : a ≡ 172 → (b < 16) ⊎ (32 ≤ b)
  pub not_home : a ≡ 192 → b ≢ 168
  pub not_link_local : a ≡ 169 → b ≢ 254
  pub not_multicast : (a < 224) ⊎ (240 ≤ a)
  pub not_unspecified : a ≡ 0 → b ≡ 0 → c ≡ 0 → d ≢ 0
  pub not_broadcast : a ≡ 255 → b ≡ 255 → c ≡ 255 → d ≢ 255

-- `::n`
abbrev pub last : ℕ → List ℕ
last n = 0 ∷ 0 ∷ 0 ∷ 0 ∷ 0 ∷ 0 ∷ 0 ∷ n ∷ []

-- Neither ::1 nor ::, and outside ff00::/8, fc00::/7 and fe80::/10.
pub record OpenSix (groups : List ℕ) : Type 0 where
  pub not_loopback : groups ≢ last 1
  pub not_unspecified : groups ≢ last 0
  pub not_multicast : (first_group groups < 65280) ⊎ (65536 ≤ first_group groups)
  pub not_unique_local : (first_group groups < 64512) ⊎ (65024 ≤ first_group groups)
  pub not_link_local : (first_group groups < 65152) ⊎ (65216 ≤ first_group groups)

abbrev pub Open : Ip → Type 0
Open (v4 a b c d) = OpenFour a b c d
Open (v6 groups) = OpenSix groups

is_restricted_ip-Open : (ip : Ip) → is_restricted_ip ip ≡ false → Open ip
unfolding is_restricted_ip
is_restricted_ip-Open (v4 a b c d) h = record {
  not_ten = λ e. absurd (ground (arith, e));
  not_loopback = λ e. absurd (ground (arith, e));
  not_private = λ e. ground (arith, e);
  not_home = λ e f. absurd (ground (arith, e, f));
  not_link_local = λ e f. absurd (ground (arith, e, f));
  not_multicast = ground arith;
  not_unspecified = λ e f g i. absurd (ground (arith, e, f, g, i));
  not_broadcast = λ e f g i. absurd (ground (arith, e, f, g, i));
}
is_restricted_ip-Open (v6 groups) h = record {
  not_loopback = λ e. absurd (ground (arith, e));
  not_unspecified = λ e. absurd (ground (arith, e));
  not_multicast = ground arith;
  not_unique_local = ground arith;
  not_link_local = ground arith;
}

pub is_restricted-Open :
    (host : String) → is_restricted host ≡ false → (ip : Ip) → parse host ≡ some ip → Open ip
is_restricted-Open host h ip parsed = is_restricted_ip-Open ip (ground (arith, parsed))
