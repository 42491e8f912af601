-- ===== src/Distributed/Policy/Brackets.antt =====
-- Hosts in brackets, as a URL has an address of version 6, and crates/distributed/src/policy.rs.
use mcp_loadtest.Base.{ℕ, ◌∷◌, List, [], String, false, some, Result, ok, err, ◌≡◌, arith}
use mcp_loadtest.Base.Order.{str_ord}
use mcp_loadtest.Base.Map.{get}
use mcp_loadtest.Base.Address.{parse-bracket}
use mcp_loadtest.Base.Characters.{codes, to_lowercase}
use mcp_loadtest.Distributed.Plan.{RemoteTarget}
use mcp_loadtest.Distributed.Wire.{PrepareFrame}
use mcp_loadtest.Distributed.Policy.Types.{Policy, Url, UrlParser, Error}
use mcp_loadtest.Distributed.Policy.{authorize, check_limits, check_url, check_host, is_restricted}

-- The frame with another URL for its target.
abbrev pub at : String → PrepareFrame → PrepareFrame
at text p = record p { target = record p.target { url = text } }

abbrev pub relocated : String → Result Error RemoteTarget → Result Error RemoteTarget
relocated text (ok t) = ok (record t { url = text })
relocated text (err e) = err e

-- The host stands in brackets.
abbrev pub InBrackets : String → Type 0
InBrackets raw = (rest : List ℕ) × (codes (to_lowercase raw) ≡ 91 ∷ rest)

abbrev pub hosted : String → Url → Url
hosted raw u = record u { host_str = some raw }

unrestricted : (raw : String) → InBrackets raw → is_restricted (to_lowercase raw) ≡ false
unrestricted raw (rest, h) = ground (arith, parse-bracket (to_lowercase raw) rest h)

-- With no list of hosts, two URLs that differ only in what stands in the brackets of their hosts are
-- authorized or refused alike: a restricted address of version 6 passes whenever a public one does.
pub authorize-brackets :
    (parser : UrlParser) (policy : Policy) (p : PrepareFrame) (u : Url)
    (text raw other_text other : String)
    → policy.allowed_target_hosts ≡ []
    → parser text ≡ ok (hosted raw u)
    → parser other_text ≡ ok (hosted other u)
    → InBrackets raw
    → InBrackets other
    → authorize parser policy (at other_text p)
      ≡ relocated other_text (authorize parser policy (at text p))
unfolding authorize check_limits check_url check_host get
authorize-brackets parser policy p u text raw other_text other none_listed here there b c =
    ground (arith, none_listed, here, there, unrestricted raw b, unrestricted other c)
