-- ===== src/Auth/EndpointPolicy.antt =====
-- crates/auth/src/policy.rs: which endpoints a request for authorization may go to. The record `Url` has what
-- the methods of the crate url give; looking up a domain and building a client of reqwest are arguments.
pub mod Ranges
pub mod Vetted
mod Tests
use mcp_loadtest.Base.{
  ℕ, ◌*◌, ◌/◌, ◌%◌, Bool, true, false, not, ◌&&◌, ◌||◌, List, [], ◌∷◌, any, is_empty, Option, none,
  some, is_some, ◌==◌, leb, if◌then◌else◌, Result, ok, ◌>>=◌, ◌>>◌, reject, ok_or,
}
use mcp_loadtest.Base.Characters.{codes, within}
use mcp_loadtest.Base.ListOrder.{list_ord}
use mcp_loadtest.Base.Order.{nat_ord}
use mcp_loadtest.Base.Sorting.{sort_by}
use mcp_loadtest.Auth.Texts.{Text, to_lowercase, same_text}
use mcp_loadtest.Auth.IpAddresses.{
  Ipv4Addr, Ipv6Addr, IpAddr, ipv4, ipv6, is_public_ipv4, is_public_ipv6, is_public_ip, is_loopback,
}
use mcp_loadtest.Auth.Error.{AuthError, unsafe_endpoint, invalid_url, network}

pub data Host : Type 0 where
  domain : Text → Host
  address : IpAddr → Host

pub record SocketAddr : Type 0 where
  pub ip : IpAddr
  pub port : ℕ

pub record Url : Type 0 where
  pub cannot_be_a_base : Bool
  pub host : Option Host
  pub host_str : Option Text
  pub username : Text
  pub password : Option Text
  pub fragment : Option Text
  pub scheme : Text
  pub port_or_known_default : Option ℕ

-- Its `Duration` is the number of nanoseconds.
pub record EndpointPolicy : Type 0 where
  pub allow_loopback_http : Bool
  pub timeout : ℕ
  pub maximum_response_bytes : ℕ

abbrev pub strict : EndpointPolicy
strict = record {
  allow_loopback_http = false;
  timeout = 15 * 1000000000;
  maximum_response_bytes = 1024 * 1024;
}

abbrev pub loopback_for_tests : EndpointPolicy
loopback_for_tests = record strict { allow_loopback_http = true }

unfoldable pub with_timeout : EndpointPolicy → ℕ → EndpointPolicy
with_timeout policy timeout = record policy { timeout = timeout }

unfoldable pub with_maximum_response_bytes : EndpointPolicy → ℕ → EndpointPolicy
with_maximum_response_bytes policy bytes = record policy { maximum_response_bytes = bytes }

-- `eq_ignore_ascii_case("localhost")`
abbrev pub is_localhost : Text → Bool
is_localhost name = same_text (to_lowercase name) (codes "localhost")

unfoldable pub is_loopback_host : Option Host → Bool
is_loopback_host none = false
is_loopback_host (some (domain name)) = is_localhost name
is_loopback_host (some (address ip)) = is_loopback ip

unfoldable pub is_unsafe_host : Option Host → Bool
unfolding is_public_ip
is_unsafe_host none = true
is_unsafe_host (some (domain name)) = is_localhost name
is_unsafe_host (some (address ip)) = not (is_public_ip ip)

abbrev pub loopback_allowed : EndpointPolicy → Url → Bool
loopback_allowed policy url = policy.allow_loopback_http && is_loopback_host url.host

abbrev pub scheme_allowed : EndpointPolicy → Url → Bool
scheme_allowed policy url =
    same_text url.scheme (codes "https")
    || (same_text url.scheme (codes "http") && loopback_allowed policy url)

unfoldable pub validate : EndpointPolicy → Url → Result AuthError (Unit {0})
unfolding is_loopback_host is_unsafe_host
validate policy url = do
  reject (url.cannot_be_a_base || not (is_some url.host))
      (unsafe_endpoint "URL must be an absolute hierarchical URL")
  reject (not (is_empty url.username) || is_some url.password)
      (unsafe_endpoint "URL userinfo is forbidden")
  reject (is_some url.fragment) (unsafe_endpoint "URL fragments are forbidden")
  reject (is_unsafe_host url.host && not (loopback_allowed policy url))
      (unsafe_endpoint "local, private, and reserved IP endpoints are forbidden")
  reject (not (scheme_allowed policy url)) (unsafe_endpoint "HTTPS is required")

unfoldable pub address_allowed : EndpointPolicy → Text → IpAddr → Bool
address_allowed policy name ip =
    if policy.allow_loopback_http && is_localhost name then is_loopback ip else is_public_ip ip

-- What a `reqwest::Client` is built from.
pub record Settings : Type 0 where
  pub follows_redirects : Bool
  pub timeout : ℕ
  pub uses_proxy : Bool
  pub resolve_to_addrs : Option (Text × List SocketAddr)

-- The order of `SocketAddr`: addresses of version 4 first, by their parts, then by port.
abbrev pub ip_key : IpAddr → ℕ → List ℕ
ip_key (ipv4 x) port = 4 ∷ x.a ∷ x.b ∷ x.c ∷ x.d ∷ port ∷ []
ip_key (ipv6 x) port = 6 ∷ x.s0 ∷ x.s1 ∷ x.s2 ∷ x.s3 ∷ x.s4 ∷ x.s5 ∷ x.s6 ∷ x.s7 ∷ port ∷ []

abbrev pub socket_key : SocketAddr → List ℕ
socket_key x = ip_key x.ip x.port

abbrev pub is_host_str : Text → Option Text → Bool
is_host_str name none = false
is_host_str name (some text) = same_text text name

unfoldable pub dedup : List SocketAddr → List SocketAddr
dedup [] = []
dedup (x ∷ []) = x ∷ []
dedup (x ∷ y ∷ rest) =
    let later = dedup (y ∷ rest) in
    if same_text (socket_key x) (socket_key y) then later else x ∷ later

module _ {ℓ} (Client : Type ℓ) (build : Settings → Option Client) where
  abbrev pub settings : EndpointPolicy → Option (Text × List SocketAddr) → Settings
  settings policy pinned = record {
    follows_redirects = false;
    timeout = policy.timeout;
    uses_proxy = false;
    resolve_to_addrs = pinned;
  }

  unfoldable pub build_client :
      EndpointPolicy → Option (Text × List SocketAddr) → Result AuthError Client
  build_client policy pinned = ok_or (build (settings policy pinned)) (network "HTTP client setup")

  unfoldable pub pinned_client :
      EndpointPolicy → Url → Text → List SocketAddr → Result AuthError Client
  unfolding validate address_allowed build_client
  pinned_client policy url name addresses = do
    validate policy url
    reject (not (is_host_str name url.host_str)) (invalid_url "endpoint")
    reject (is_empty addresses) (network "endpoint DNS resolution")
    reject (any (λ a. not (address_allowed policy name a.ip)) addresses)
        (unsafe_endpoint "DNS resolved to a local, private, or reserved address")
    build_client policy (some (name, addresses))

module _ {ℓ} (Client : Type ℓ) (build : Settings → Option Client)
    (lookup_host : Text → ℕ → Option (List SocketAddr)) where
  -- The client for a host, whose domain is looked up.
  unfoldable pub client_at : EndpointPolicy → Url → Option Host → Result AuthError Client
  unfolding pinned_client dedup sort_by
  client_at policy url (some (domain name)) = do
    port ← ok_or url.port_or_known_default (invalid_url "endpoint")
    found ← ok_or (lookup_host name port) (network "endpoint DNS resolution")
    pinned_client Client build policy url name (dedup (sort_by socket_key found))
  client_at policy url host = build_client Client build policy none

  unfoldable pub client_for : EndpointPolicy → Url → Result AuthError Client
  unfolding client_at
  client_for policy url = do validate policy url; client_at policy url url.host

  unfoldable pub validate_resolved : EndpointPolicy → Url → Result AuthError (Unit {0})
  validate_resolved policy url = do client ← client_for policy url; ok tt
