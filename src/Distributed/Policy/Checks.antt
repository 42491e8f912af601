-- ===== src/Distributed/Policy/Checks.antt =====
-- crates/distributed/src/policy.rs: the checks that `authorize` makes of names, addresses and credentials.
use mcp_loadtest.Base.{
  ℕ, ◌/◌, ◌-◌, ◌^◌, min, String, Bool, true, false, not, ◌&&◌, ◌||◌, List, [], ◌∷◌, Result, ok,
  reject, ◌>>◌, ltb, ◌==◌, all, any, str_eq,
}
use Prim.Native.String.{len as text_len}
use text.Mathlib.Text.{starts_with}
use mcp_loadtest.Base.Characters.{
  is_alphabetic, is_alphanumeric, is_control, is_whitespace, codes, to_lowercase, within,
}
use mcp_loadtest.Base.Address.{Ip, v4, v6}
use mcp_loadtest.Distributed.Plan.{RemoteTransport, http, sse, ws, RemoteClientCredentialsAuth}
use mcp_loadtest.Distributed.Policy.Types.{
  Error, scheme_mismatch, invalid_header_name, invalid_environment_name, invalid_client_id,
  offline_access, step_up_retries, invalid_scope,
}

abbrev pub one_of : String → List String → Bool
one_of s names = any (str_eq s) names

-- Whether the scheme is one of the transport's.
abbrev pub suits : RemoteTransport → String → Bool
suits ws scheme = one_of scheme ("ws" ∷ "wss" ∷ [])
suits _ scheme = one_of scheme ("http" ∷ "https" ∷ [])

abbrev transport_name : RemoteTransport → String
transport_name http = "http"
transport_name sse = "sse"
transport_name ws = "ws"

unfoldable pub validate_scheme : RemoteTransport → String → Result Error (Unit {0})
validate_scheme t scheme = reject (not (suits t scheme)) (scheme_mismatch (transport_name t) scheme)

-- `is_managed_remote_header` of crates/core/src/config/validate.rs
unfoldable pub is_managed_remote_header : String → Bool
is_managed_remote_header raw =
    let name = to_lowercase raw in
    one_of name (
      "accept" ∷ "connection" ∷ "content-length" ∷ "content-type" ∷ "host" ∷ "keep-alive"
      ∷ "proxy-authenticate" ∷ "proxy-authorization" ∷ "proxy-connection" ∷ "te" ∷ "trailer"
      ∷ "transfer-encoding" ∷ "upgrade" ∷ [])
    || starts_with name "mcp-"
    || starts_with name "sec-websocket-"

-- One of !#$%&'*+-.^_`|~
abbrev is_token_mark : ℕ → Bool
is_token_mark n =
    n == 33
    || within 35 39 n
    || within 42 43 n
    || within 45 46 n
    || within 94 96 n
    || n == 124
    || n == 126

unfoldable pub is_http_token : String → Bool
is_http_token value =
    not (str_eq value "") && all (λ n. is_alphanumeric n || is_token_mark n) (codes value)

abbrev portable_codes : List ℕ → Bool
portable_codes [] = false
portable_codes (n ∷ rest) =
    (is_alphabetic n || n == 95) && all (λ m. is_alphanumeric m || m == 95) rest

unfoldable pub is_portable_env_name : String → Bool
is_portable_env_name value = portable_codes (codes value)

unfoldable pub validate_header_refs : List (String × String) → Result Error (Unit {0})
validate_header_refs [] = ok tt
validate_header_refs ((header, environment) ∷ rest) = do
  reject (not (is_http_token header) || is_managed_remote_header (to_lowercase header))
      (invalid_header_name header)
  reject (not (is_portable_env_name environment)) (invalid_environment_name environment)
  validate_header_refs rest

abbrev bad_scope : String → Bool
bad_scope scope =
    str_eq scope ""
    || ltb 1024 (text_len scope)
    || any (λ n. is_control n || is_whitespace n) (codes scope)

validate_scopes : List String → Result Error (Unit {0})
validate_scopes [] = ok tt
validate_scopes (scope ∷ rest) = do
  reject (bad_scope scope) (invalid_scope scope)
  validate_scopes rest

unfoldable pub validate_remote_auth : RemoteClientCredentialsAuth → Result Error (Unit {0})
unfolding validate_scopes
validate_remote_auth auth = do
  reject
      (str_eq auth.client_id ""
        || ltb 4096 (text_len auth.client_id)
        || any is_control (codes auth.client_id))
      invalid_client_id
  reject (not (is_portable_env_name auth.client_secret_env))
      (invalid_environment_name auth.client_secret_env)
  reject (auth.offline_access || any (λ s. str_eq (to_lowercase s) "offline_access") auth.scopes)
      offline_access
  reject (ltb 3 auth.max_step_up_retries) step_up_retries
  validate_scopes auth.scopes

abbrev pub first_group : List ℕ → ℕ
first_group [] = 0
first_group (g ∷ gs) = g

-- All groups are 0, but for the last, which is `n`.
abbrev pub only_last : ℕ → List ℕ → Bool
only_last n [] = true
only_last n (g ∷ []) = g == n
only_last n (g ∷ gs) = g == 0 && only_last n gs

-- `segments()[0] & 0xfe00 == 0xfc00`, and `& 0xffc0 == 0xfe80`: the upper 7 and 10 bits.
abbrev is_ipv6_unique_local : List ℕ → Bool
is_ipv6_unique_local groups = first_group groups / 512 == 126

abbrev is_ipv6_link_local : List ℕ → Bool
is_ipv6_link_local groups = first_group groups / 64 == 1018

-- Private, loopback, link-local, unspecified, multicast and broadcast.
unfoldable pub is_restricted_ip : Ip → Bool
is_restricted_ip (v4 a b c d) =
    (a == 10 || (a == 172 && within 16 31 b) || (a == 192 && b == 168))
    || a == 127
    || (a == 169 && b == 254)
    || (a == 0 && b == 0 && c == 0 && d == 0)
    || within 224 239 a
    || (a == 255 && b == 255 && c == 255 && d == 255)
is_restricted_ip (v6 groups) =
    only_last 1 groups
    || only_last 0 groups
    || first_group groups / 256 == 255
    || is_ipv6_unique_local groups
    || is_ipv6_link_local groups

-- A `Duration` in milliseconds, within a `u64`.
unfoldable pub millis_u64 : ℕ → ℕ
millis_u64 nanos = min (nanos / 1000000) (2 ^ 64 - 1)
