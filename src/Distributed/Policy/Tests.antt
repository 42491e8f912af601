-- ===== src/Distributed/Policy/Tests.antt =====
-- The cases of the tests of crates/distributed/src/policy.rs, with a parser that knows five texts.
use mcp_loadtest.Base.{String, [], ◌∷◌, none, some, ok, err, true, ◌≡◌, refl, str_eq, if◌then◌else◌}
use mathlib.Core.Option
use mcp_loadtest.Base.Order.{str_ord}
use mcp_loadtest.Base.Map.{get}
use mcp_loadtest.Base.Float.{is_finite, le_zero}
use mcp_loadtest.Base.Json.{is_object}
use mcp_loadtest.Base.Characters.{to_lowercase, codes}
use mcp_loadtest.Base.Address.{parse}
use mcp_loadtest.Distributed.Wire.{PrepareFrame}
use mcp_loadtest.Distributed.Samples.{prepare}
use mcp_loadtest.Distributed.Policy.Types.{
  Policy, Url, UrlParser, default, restricted_address, plaintext_denied, credential_over_plaintext,
}
use mcp_loadtest.Distributed.Policy.Checks.{
  validate_scheme, validate_header_refs, is_restricted_ip, is_http_token, is_managed_remote_header,
  is_portable_env_name,
}
use mcp_loadtest.Distributed.Policy.{authorize, check_limits, check_url, check_host}
use mcp_loadtest.Distributed.Policy.Brackets.{at, relocated, authorize-brackets}
use mcp_loadtest.Distributed.Policy.Limits.{Authorized, authorize-Authorized}

abbrev at_host : String → String → Url
at_host scheme host = record {
  scheme = scheme;
  username = "";
  password = none;
  host_str = some host;
  fragment = none;
}

abbrev five_texts : UrlParser
five_texts text =
    if str_eq text "https://api.example/mcp"
    then ok (at_host "https" "api.example")
    else if str_eq text "http://127.0.0.1/mcp"
    then ok (at_host "http" "127.0.0.1")
    else if str_eq text "https://[::1]/mcp"
    then ok (at_host "https" "[::1]")
    else if str_eq text "https://[2606:4700::1]/mcp"
    then ok (at_host "https" "[2606:4700::1]")
    else if str_eq text "http://public.example/mcp"
    then ok (at_host "http" "public.example")
    else err "relative URL without a base"

abbrev asking : String → PrepareFrame
asking url = record (prepare "east" 0) {
  target = record (prepare "east" 0).target { url = url; allowed_hosts = "127.0.0.1" ∷ [] };
}

abbrev plaintext : Policy
plaintext = record default { allow_plaintext = true }

abbrev local : Policy
local = record plaintext { allowed_target_hosts = ("127.0.0.1", tt) ∷ [] }

public_tls :
    authorize five_texts default (asking "https://api.example/mcp")
    ≡ ok (record (asking "https://api.example/mcp").target { allowed_hosts = [] })
unfolding authorize default check_limits check_url check_host validate_scheme validate_header_refs
    str_eq get to_lowercase parse codes Option.bind is_finite le_zero is_object
public_tls = refl

plaintext_by_default :
    authorize five_texts default (asking "http://127.0.0.1/mcp") ≡ err plaintext_denied
unfolding authorize default check_limits check_url check_host validate_scheme str_eq is_finite
    le_zero is_object
plaintext_by_default = refl

loopback_refused :
    authorize five_texts plaintext (asking "http://127.0.0.1/mcp")
    ≡ err (restricted_address "127.0.0.1")
unfolding authorize default check_limits check_url check_host validate_scheme str_eq get
    to_lowercase parse codes Option.bind is_restricted_ip is_finite le_zero is_object
loopback_refused = refl

loopback_listed :
    authorize five_texts local (asking "http://127.0.0.1/mcp")
    ≡ ok (record (asking "http://127.0.0.1/mcp").target { allowed_hosts = "127.0.0.1" ∷ [] })
unfolding authorize default check_limits check_url check_host validate_scheme validate_header_refs
    str_eq get to_lowercase parse codes Option.bind is_restricted_ip is_finite le_zero is_object
loopback_listed = refl

-- A version 6 address stands in brackets in a URL, and so is no address to the check.
loopback_six_passes :
    authorize five_texts default (asking "https://[::1]/mcp")
    ≡ ok (record (asking "https://[::1]/mcp").target { allowed_hosts = [] })
unfolding authorize default check_limits check_url check_host validate_scheme validate_header_refs
    str_eq get to_lowercase parse codes Option.bind is_restricted_ip is_finite le_zero is_object
loopback_six_passes = refl

abbrev with_header : PrepareFrame → PrepareFrame
with_header p = record p {
  target = record p.target { headers_from_env = ("Authorization", "MCP_TOKEN") ∷ [] };
}

header_over_plaintext :
    authorize five_texts plaintext (with_header (asking "http://public.example/mcp"))
    ≡ err credential_over_plaintext
unfolding authorize default check_limits check_url check_host validate_scheme str_eq to_lowercase
    is_finite le_zero is_object
header_over_plaintext = refl

authorize-Authorized_example :
    Authorized five_texts local
      (asking "http://127.0.0.1/mcp")
      (record (asking "http://127.0.0.1/mcp").target { allowed_hosts = "127.0.0.1" ∷ [] })
authorize-Authorized_example =
    authorize-Authorized five_texts local (asking "http://127.0.0.1/mcp") loopback_listed

abbrev with_token : PrepareFrame
with_token = with_header (asking "https://api.example/mcp")

header_over_tls :
    authorize five_texts default with_token ≡ ok (record with_token.target { allowed_hosts = [] })
unfolding authorize default check_limits check_url check_host validate_scheme validate_header_refs
    is_http_token is_managed_remote_header is_portable_env_name str_eq get to_lowercase parse codes
    Option.bind is_finite le_zero is_object
header_over_tls = refl

-- The same frame to a public address of version 6 and to the loopback.
authorize-brackets_example :
    authorize five_texts default (at "https://[::1]/mcp" with_token)
    ≡ relocated "https://[::1]/mcp"
        (authorize five_texts default (at "https://[2606:4700::1]/mcp" with_token))
unfolding str_eq to_lowercase codes default
authorize-brackets_example =
    authorize-brackets five_texts default with_token (at_host "https" "")
      "https://[2606:4700::1]/mcp" "[2606:4700::1]" "https://[::1]/mcp" "[::1]" refl refl refl
      (codes "2606:4700::1]", refl) (codes "::1]", refl)
