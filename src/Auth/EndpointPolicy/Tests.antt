-- ===== src/Auth/EndpointPolicy/Tests.antt =====
-- Endpoints (as in the tests of crates/auth/src/policy.rs), with a `build` that keeps the settings.
use mcp_loadtest.Base.{ℕ, false, not, List, [], ◌∷◌, Option, none, some, ok, err, ◌≡◌, refl, arith}
use mcp_loadtest.Base.Characters.{codes}
use mcp_loadtest.Base.Sorting.{sort_by, place, before}
use mcp_loadtest.Auth.Texts.{Text}
use mcp_loadtest.Auth.Error.{unsafe_endpoint}
use mcp_loadtest.Auth.EndpointPolicy.{
  Url, SocketAddr, Settings, domain, settings, strict, client_for, validate, dedup,
}
use mcp_loadtest.Auth.IpAddresses.{Ipv4Addr, ipv4, is_public_ipv4}
use mcp_loadtest.Auth.EndpointPolicy.Ranges.{is_public_ipv4-block, in_reserved_block, to_bits}
use mcp_loadtest.Auth.EndpointPolicy.Vetted.{client_for-Vetted, Vetted}

abbrev endpoint : Url
endpoint = record {
  cannot_be_a_base = false;
  host = some (domain (codes "auth.example"));
  host_str = some (codes "auth.example");
  username = [];
  password = none;
  fragment = none;
  scheme = codes "https";
  port_or_known_default = some 443;
}

abbrev at : ℕ → SocketAddr
at d = record { ip = ipv4 (record { a = 93; b = 184; c = 216; d = d }); port = 443 }

abbrev inside : SocketAddr
inside = record { ip = ipv4 (record { a = 10; b = 0; c = 0; d = 1 }); port = 443 }

abbrev lookup : Text → ℕ → Option (List SocketAddr)
lookup name port = some (at 35 ∷ at 34 ∷ at 35 ∷ [])

abbrev mixed : Text → ℕ → Option (List SocketAddr)
mixed name port = some (at 34 ∷ inside ∷ [])

abbrev vetted : Settings
vetted = settings Settings some strict (some (codes "auth.example", at 34 ∷ at 35 ∷ []))

pinned : client_for Settings some lookup strict endpoint ≡ ok vetted
unfolding client_for validate codes dedup sort_by place before is_public_ipv4
pinned = refl

mixed_is_refused :
    client_for Settings some mixed strict endpoint
    ≡ err (unsafe_endpoint "DNS resolved to a local, private, or reserved address")
unfolding client_for validate codes dedup sort_by place before is_public_ipv4
mixed_is_refused = refl

client_for-Vetted_example : (s : Settings) × (some s ≡ some vetted) × Vetted strict endpoint s
client_for-Vetted_example = client_for-Vetted Settings some lookup strict endpoint pinned

-- 192.168.1.7
abbrev at_home : Ipv4Addr
at_home = record { a = 192; b = 168; c = 1; d = 7 }

is_public_ipv4-block_example : is_public_ipv4 at_home ≡ not (in_reserved_block (to_bits at_home))
is_public_ipv4-block_example = is_public_ipv4-block at_home (record {
  a_below = omega arith;
  b_below = omega arith;
  c_below = omega arith;
  d_below = omega arith;
})
