-- ===== src/Distributed/Policy.antt =====
-- crates/distributed/src/policy.rs: what a worker lets a controller ask of it.
pub mod Types
pub mod Checks
pub mod Addresses
pub mod Limits
pub mod Brackets
pub mod References
mod Tests
use Types.{
  Policy, Url, UrlParser, Error, invalid_shard, invalid_heartbeat_interval, concurrency, duration,
  invalid_workload, startup_timeout, invalid_url, missing_host, url_credentials, url_fragment,
  plaintext_denied, credential_over_plaintext, host_denied, restricted_address,
}
use Checks.{
  validate_scheme, validate_header_refs, validate_remote_auth, is_restricted_ip, millis_u64, one_of,
}
use mcp_loadtest.Base.{
  is_some, ℕ, ◌*◌, String, Bool, true, false, not, ◌&&◌, ◌||◌, List, [], ◌∷◌, Option, none, some,
  Result, ok, err, ok_or, reject, ◌>>=◌, ◌>>◌, ltb, leb, ◌==◌, if◌then◌else◌, any, is_empty, str_eq,
}
use mcp_loadtest.Base.Order.{str_ord}
use mcp_loadtest.Base.Sets.{holds}
use mcp_loadtest.Base.Float.{is_finite, le_zero}
use mcp_loadtest.Base.Json.{is_object}
use mcp_loadtest.Base.Characters.{to_lowercase}
use mcp_loadtest.Base.Address.{parse}
use mcp_loadtest.Distributed.Plan.{
  PatternStepPlan, PatternPlan, RemoteTarget, RemoteClientCredentialsAuth,
}
use mcp_loadtest.Distributed.Wire.{PrepareFrame}

-- `Duration::from_millis`
abbrev pub from_millis : ℕ → ℕ
from_millis n = n * 1000000

abbrev bad_step : PatternStepPlan → Bool
bad_step s = str_eq s.tool "" || not (is_object s.args)

abbrev bad_pattern : PatternPlan → Bool
bad_pattern p =
    not (is_finite p.weight) || le_zero p.weight || is_empty p.steps || any bad_step p.steps

-- The checks before the URL is read.
unfoldable pub check_limits : Policy → PrepareFrame → Result Error (Unit {0})
check_limits policy p = do
  reject
      (p.shard.agent_count == 0
        || leb p.shard.agent_count p.shard.index
        || str_eq p.shard.agent_name "")
      invalid_shard
  reject (p.heartbeat_interval_ms == 0) invalid_heartbeat_interval
  reject
      (p.plan.concurrency == 0
        || not (p.plan.concurrency == p.shard.concurrency)
        || ltb policy.max_concurrency p.plan.concurrency)
      (concurrency p.plan.concurrency policy.max_concurrency)
  reject (p.plan.duration_ms == 0 || ltb policy.max_duration (from_millis p.plan.duration_ms))
      (duration p.plan.duration_ms (millis_u64 policy.max_duration))
  reject (is_empty p.plan.patterns || any bad_pattern p.plan.patterns) invalid_workload
  reject
      (p.target.startup_timeout_ms == 0
        || ltb policy.max_startup_timeout (from_millis p.target.startup_timeout_ms))
      (startup_timeout p.target.startup_timeout_ms (millis_u64 policy.max_startup_timeout))

abbrev parse_url : UrlParser → String → Result Error Url
parse_url parser text = elim (parser text) [ ok u ↦ ok u | err e ↦ err (invalid_url e) ]

abbrev pub is_secure : String → Bool
is_secure scheme = one_of scheme ("https" ∷ "wss" ∷ [])

-- `host.parse::<IpAddr>().is_ok_and(is_restricted_ip)`
abbrev pub is_restricted : String → Bool
is_restricted host = elim (parse host) [ none ↦ false | some ip ↦ is_restricted_ip ip ]

-- The URL, and its host in lower case.
unfoldable pub check_url : UrlParser → RemoteTarget → Result Error (Url × String)
check_url parser target = do
  url ← parse_url parser target.url
  reject (not (str_eq url.username "") || is_some url.password) url_credentials
  reject (is_some url.fragment) url_fragment
  host ← ok_or url.host_str missing_host
  validate_scheme target.transport url.scheme
  ok (url, to_lowercase host)

unfoldable pub check_host : Policy → RemoteTarget → Url → String → Result Error (Unit {0})
check_host policy target url host = do
  reject (not (is_secure url.scheme) && not policy.allow_plaintext) plaintext_denied
  reject
      (not (is_secure url.scheme)
        && (not (is_empty target.headers_from_env) || is_some target.auth))
      credential_over_plaintext
  reject
      (not (is_empty policy.allowed_target_hosts) && not (holds host policy.allowed_target_hosts))
      (host_denied host)
  reject (is_restricted host && not (holds host policy.allowed_target_hosts))
      (restricted_address host)

abbrev pub check_auth : Option RemoteClientCredentialsAuth → Result Error (Unit {0})
check_auth none = ok tt
check_auth (some auth) = validate_remote_auth auth

unfoldable pub authorize : UrlParser → Policy → PrepareFrame → Result Error RemoteTarget
authorize parser policy p = do
  check_limits policy p
  read ← check_url parser p.target
  check_host policy p.target read.0 read.1
  validate_header_refs p.target.headers_from_env
  check_auth p.target.auth
  ok (record p.target {
    allowed_hosts = if holds read.1 policy.allowed_target_hosts then read.1 ∷ [] else [];
  })
