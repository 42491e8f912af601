-- ===== src/Distributed/Policy/Limits.antt =====
-- What `AgentPolicy::authorize` (crates/distributed/src/policy.rs) lets through.
use mcp_loadtest.Base.{
  ◌≤◌, ◌<◌, String, true, false, List, [], ◌∷◌, none, some, ok, ◌≡◌, refl, ◌⊎◌, inl, inr, arith,
  if◌then◌else◌, str_eq_iff, Result-cases, Bool-cases, Option-cases, is_empty, any, All,
}
use mcp_loadtest.Base.Order.{str_ord}
use mcp_loadtest.Base.Sets.{holds}
use mcp_loadtest.Base.Characters.{to_lowercase}
use mcp_loadtest.Base.Address.{Ip, parse}
use mcp_loadtest.Distributed.Policy.Addresses.{Open, is_restricted-Open}
use mcp_loadtest.Distributed.Plan.{RemoteTarget}
use mcp_loadtest.Distributed.Wire.{PrepareFrame}
use mcp_loadtest.Distributed.Policy.Types.{Policy, Url, UrlParser}
use mcp_loadtest.Distributed.Policy.Checks.{suits, validate_scheme}
use mcp_loadtest.Distributed.Policy.References.{GoodReference, good_references}
use mcp_loadtest.Distributed.Policy.{
  authorize, check_limits, check_url, check_host, from_millis, is_secure, bad_pattern,
}

-- The frame with another list of hosts that the controller would allow.
abbrev pub with_hosts : List String → PrepareFrame → PrepareFrame
with_hosts hosts p = record p { target = record p.target { allowed_hosts = hosts } }

-- The answer does not depend on the hosts that a controller lists.
pub authorize-with_hosts :
    (parser : UrlParser) (policy : Policy) (hosts : List String) (p : PrepareFrame)
    → authorize parser policy (with_hosts hosts p) ≡ authorize parser policy p
unfolding authorize check_limits check_url check_host
authorize-with_hosts parser policy hosts p = refl

-- The limits of the policy on the work.
pub record WithinLimits (policy : Policy) (p : PrepareFrame) : Type 0 where
  pub index_below : p.shard.index < p.shard.agent_count
  pub beats : 1 ≤ p.heartbeat_interval_ms
  pub busy : 1 ≤ p.plan.concurrency
  pub own_share : p.plan.concurrency ≡ p.shard.concurrency
  pub few : p.plan.concurrency ≤ policy.max_concurrency
  pub lasting : 1 ≤ p.plan.duration_ms
  pub brief : from_millis p.plan.duration_ms ≤ policy.max_duration
  pub some_work : is_empty p.plan.patterns ≡ false
  pub good_work : any bad_pattern p.plan.patterns ≡ false
  pub patient : 1 ≤ p.target.startup_timeout_ms
  pub quick : from_millis p.target.startup_timeout_ms ≤ policy.max_startup_timeout

limits :
    (policy : Policy) (p : PrepareFrame) → check_limits policy p ≡ ok tt → WithinLimits policy p
unfolding check_limits
limits policy p h = record {
  index_below = ground arith;
  beats = ground arith;
  busy = ground arith;
  own_share = ground arith;
  few = ground arith;
  lasting = ground arith;
  brief = ground arith;
  some_work = ground arith;
  good_work = ground arith;
  patient = ground arith;
  quick = ground arith;
}

-- The target that may be contacted, and under which conditions.
pub record MayContact (parser : UrlParser) (policy : Policy) (target : RemoteTarget) (url : Url)
    (raw : String) : Type 0 where
  pub parsed : parser target.url ≡ ok url
  pub hosted : url.host_str ≡ some raw
  pub no_user : url.username ≡ ""
  pub no_password : url.password ≡ none
  pub no_fragment : url.fragment ≡ none
  pub scheme : suits target.transport url.scheme ≡ true
  pub private_or_bare :
      (is_secure url.scheme ≡ true)
      ⊎ ((policy.allow_plaintext ≡ true) × (target.headers_from_env ≡ []) × (target.auth ≡ none))
  pub listed :
      (holds (to_lowercase raw) policy.allowed_target_hosts ≡ true)
      ⊎ ((policy.allowed_target_hosts ≡ [])
          × ((ip : Ip) → parse (to_lowercase raw) ≡ some ip → Open ip))

-- What the agent has authorized.
pub record Authorized (parser : UrlParser) (policy : Policy) (p : PrepareFrame) (t : RemoteTarget)
    : Type 0 where
  pub within : WithinLimits policy p
  pub url : Url
  pub raw : String
  pub contact : MayContact parser policy p.target url raw
  pub references : All GoodReference p.target.headers_from_env
  pub rest_kept : t ≡ record p.target {
    allowed_hosts =
        if holds (to_lowercase raw) policy.allowed_target_hosts then to_lowercase raw ∷ [] else [];
  }

-- The host that a URL has.
hosted_url :
    (parser : UrlParser) (target : RemoteTarget) {u : Url} {host : String}
    → check_url parser target ≡ ok (u, host)
    → (raw : String) × (u.host_str ≡ some raw) × (host ≡ to_lowercase raw)
unfolding check_url
hosted_url parser target {u} h = elim (Result-cases (parser target.url)) [
  | inr (e, bad) ↦ absurd (ground (arith, bad))
  | inl (v, parsed) ↦ elim (Option-cases v.host_str) [
    | inl nowhere ↦ absurd (ground (arith, parsed, nowhere))
    | inr (raw, there) ↦ (raw, ground (arith, parsed, there), ground (arith, parsed, there))
  ]
]

empty_list : (l : List (String × Unit {0})) → is_empty l ≡ true → l ≡ []
empty_list [] e = refl
empty_list (x ∷ l) e = cc

-- The host is on the list, or there is none and its text is not that of a restricted address.
listed_host :
    (policy : Policy) (target : RemoteTarget) (u : Url) (host : String)
    → check_host policy target u host ≡ ok tt
    → (holds host policy.allowed_target_hosts ≡ true)
      ⊎ ((policy.allowed_target_hosts ≡ []) × ((ip : Ip) → parse host ≡ some ip → Open ip))
unfolding check_host
listed_host policy target u host k = elim (Bool-cases (holds host policy.allowed_target_hosts)) [
  | inl on ↦ inl on
  | inr off ↦ inr (
    empty_list policy.allowed_target_hosts (ground arith),
    is_restricted-Open host (ground arith),
  )
]

contacts :
    (parser : UrlParser) (policy : Policy) (target : RemoteTarget) (u : Url) (host raw : String)
    → check_url parser target ≡ ok (u, host)
    → check_host policy target u host ≡ ok tt
    → u.host_str ≡ some raw
    → host ≡ to_lowercase raw
    → MayContact parser policy target u raw
unfolding check_url check_host validate_scheme
contacts parser policy target u host raw h k there low = record {
  parsed = ground arith;
  hosted = there;
  no_user = ground (arith, str_eq_iff u.username "");
  no_password = ground arith;
  no_fragment = ground arith;
  scheme = ground arith;
  private_or_bare = ground arith;
  listed = rw (← low) (listed_host policy target u host k);
}

-- If the frame is authorized, it keeps within the limits of the policy; its URL has no credentials and no
-- fragment and its scheme is the transport's; a plaintext target is allowed by the policy and is sent no
-- credentials; the host is listed by the policy, or the policy lists none and no address that the text of the
-- host is read as is restricted: of version 4 not private, of the loopback, link-local, multicast, 0.0.0.0 or
-- broadcast, and of version 6 not ::1, ::, multicast, unique-local or link-local. A host of version 6 in
-- brackets is read as no address, and nothing is said of it. Each header to be sent has the form of a header
-- name, is none that the transport manages and takes its value from a portable environment variable; and of
-- the target only the allowed hosts are changed, to the listed host or to none.
pub authorize-Authorized :
    (parser : UrlParser) (policy : Policy) (p : PrepareFrame) {t : RemoteTarget}
    → authorize parser policy p ≡ ok t
    → Authorized parser policy p t
unfolding authorize
authorize-Authorized parser policy p {t} h = elim (Result-cases (check_url parser p.target)) [
  | inr (e, bad) ↦ absurd (ground (arith, bad))
  | inl ((u, host), good) ↦
      let (raw, there, low) = hosted_url parser p.target good in
      record {
        within = limits policy p (ground arith);
        url = u;
        raw = raw;
        contact = contacts parser policy p.target u host raw good (ground (arith, good)) there low;
        references = good_references p.target.headers_from_env (ground arith);
        rest_kept = ground (arith, good, low);
      }
]
