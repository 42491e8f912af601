-- ===== src/Auth/EndpointPolicy/Vetted.antt =====
-- What `EndpointPolicy::client_for` (crates/auth/src/policy.rs) lets a client reach.
use mcp_loadtest.Base.{
  ℕ, Bool, true, false, not, ◌&&◌, ◌||◌, List, [], ◌∷◌, any, is_empty, is_some, Option, none, some,
  ◌≡◌, refl, ◌⊎◌, inl, inr, arith, Result, ok, err, ◌>>◌, >>=-eq-ok, reject, ok_or, All, Bool-cases,
}
use mcp_loadtest.Base.Characters.{codes}
use mcp_loadtest.Base.ListOrder.{list_ord}
use mcp_loadtest.Base.Order.{nat_ord}
use mcp_loadtest.Base.Sorting.{sort_by}
use mcp_loadtest.Auth.Texts.{Text, same_text}
use mcp_loadtest.Auth.Error.{AuthError}
use mcp_loadtest.Auth.EndpointPolicy.{
  EndpointPolicy, Url, Host, domain, address, SocketAddr, Settings, settings, client_for, client_at,
  pinned_client, build_client, validate, address_allowed, is_localhost, is_unsafe_host,
  is_loopback_host, loopback_allowed, scheme_allowed, dedup, socket_key,
}
use mcp_loadtest.Auth.IpAddresses.{IpAddr, is_public_ip, is_loopback}

-- An address that may be reached: a public one, or one of the loopback for tests.
abbrev pub MayReach : EndpointPolicy → IpAddr → Type 0
MayReach policy ip =
    (is_public_ip ip ≡ true) ⊎ ((policy.allow_loopback_http ≡ true) × (is_loopback ip ≡ true))

-- A domain is reached at the addresses that are pinned, an address at itself.
abbrev pub Reaches : EndpointPolicy → Option Host → Option (Text × List SocketAddr) → Type 0
Reaches policy none pinned = ⊥
Reaches policy (some (address ip)) pinned = (pinned ≡ none) × MayReach policy ip
Reaches policy (some (domain name)) pinned =
    (addresses : List SocketAddr) × (pinned ≡ some (name, addresses))
    × (is_empty addresses ≡ false)
    × All (λ a. MayReach policy a.ip) addresses

pub record Vetted (policy : EndpointPolicy) (url : Url) (s : Settings) : Type 0 where
  pub hierarchical : url.cannot_be_a_base ≡ false
  pub no_user : is_empty url.username ≡ true
  pub no_password : url.password ≡ none
  pub no_fragment : url.fragment ≡ none
  pub secure :
      (same_text url.scheme (codes "https") ≡ true)
      ⊎ ((same_text url.scheme (codes "http") ≡ true) × (loopback_allowed policy url ≡ true))
  pub no_redirects : s.follows_redirects ≡ false
  pub no_proxy : s.uses_proxy ≡ false
  pub same_timeout : s.timeout ≡ policy.timeout
  pub reaches : Reaches policy url.host s.resolve_to_addrs

-- What is done after a check is only done if the check is passed.
passed_check {ℓ} :
    {A : Type ℓ} (b : Bool) (e : AuthError) {rest : Result AuthError A} {x : A}
    → (reject b e >> rest) ≡ ok x
    → (b ≡ false) × (rest ≡ ok x)
passed_check b e h = elim (Bool-cases b) [
  | inl t ↦ absurd (ground (arith, t))
  | inr f ↦ (f, ground (arith, f))
]

passed_last : (b : Bool) (e : AuthError) {u : Unit {0}} → reject b e ≡ ok u → b ≡ false
passed_last true e h = cc
passed_last false e h = refl

after_check {ℓ} :
    {A : Type ℓ} (first : Result AuthError (Unit {0})) {rest : Result AuthError A} {x : A}
    → (first >> rest) ≡ ok x
    → (first ≡ ok tt) × (rest ≡ ok x)
after_check (ok u) h = (refl, h)
after_check (err e) h = cc

ok_or-eq-ok {ℓ} :
    {A : Type ℓ} (o : Option A) (e : AuthError) {x : A} → ok_or o e ≡ ok x → o ≡ some x
ok_or-eq-ok none e h = cc
ok_or-eq-ok (some a) e h = cc

absent {ℓ} : {A : Type ℓ} (o : Option A) → is_some o ≡ false → o ≡ none
absent none h = refl
absent (some a) h = cc

secure_scheme :
    (policy : EndpointPolicy) (url : Url)
    → not (scheme_allowed policy url) ≡ false
    → (same_text url.scheme (codes "https") ≡ true)
      ⊎ ((same_text url.scheme (codes "http") ≡ true) × (loopback_allowed policy url ≡ true))
secure_scheme policy url h = elim (Bool-cases (same_text url.scheme (codes "https"))) [
  | inl t ↦ inl t
  | inr f ↦ inr (ground (arith, f), ground (arith, f))
]

-- What a URL that is valid has.
record IsSound (policy : EndpointPolicy) (url : Url) : Type 0 where
  based : (url.cannot_be_a_base || not (is_some url.host)) ≡ false
  bare : (not (is_empty url.username) || is_some url.password) ≡ false
  whole : is_some url.fragment ≡ false
  host_allowed : (is_unsafe_host url.host && not (loopback_allowed policy url)) ≡ false
  scheme : not (scheme_allowed policy url) ≡ false

validate-IsSound :
    (policy : EndpointPolicy) (url : Url) {u : Unit {0}}
    → validate policy url ≡ ok u
    → IsSound policy url
unfolding validate
validate-IsSound policy url h =
    let base = passed_check _ _ h in
    let user = passed_check _ _ base.1 in
    let fragment = passed_check _ _ user.1 in
    let host = passed_check _ _ fragment.1 in
    record {
      based = base.0;
      bare = user.0;
      whole = fragment.0;
      host_allowed = host.0;
      scheme = passed_last _ _ host.1;
    }

allowed-MayReach :
    (policy : EndpointPolicy) (name : Text) (ip : IpAddr)
    → address_allowed policy name ip ≡ true
    → MayReach policy ip
unfolding address_allowed
allowed-MayReach policy name ip h =
    elim (Bool-cases (policy.allow_loopback_http && is_localhost name)) [
      | inl t ↦ inr (ground (arith, t), ground (arith, t))
      | inr f ↦ inl (ground (arith, f))
    ]

all-allowed :
    (policy : EndpointPolicy) (name : Text) (addresses : List SocketAddr)
    → any (λ a. not (address_allowed policy name a.ip)) addresses ≡ false
    → All (λ a. MayReach policy a.ip) addresses
all-allowed policy name [] h = tt
all-allowed policy name (a ∷ rest) h =
    (allowed-MayReach policy name a.ip (ground arith), all-allowed policy name rest (ground arith))

host-MayReach :
    (policy : EndpointPolicy) (url : Url) (ip : IpAddr)
    → url.host ≡ some (address ip)
    → IsSound policy url
    → MayReach policy ip
unfolding is_unsafe_host is_loopback_host
host-MayReach policy url ip at sound = elim (Bool-cases (is_public_ip ip)) [
  | inl t ↦ inl t
  | inr f ↦
      inr (ground (arith, sound.host_allowed, at, f), ground (arith, sound.host_allowed, at, f))
]

module _ {ℓ} (Client : Type ℓ) (build : Settings → Option Client) where
  -- A client is built from settings that send no request elsewhere.
  Built : EndpointPolicy → Option (Text × List SocketAddr) → Client → Type ℓ
  Built policy pinned client = build (settings Client build policy pinned) ≡ some client

  build_client-Built :
      (policy : EndpointPolicy) (pinned : Option (Text × List SocketAddr)) {client : Client}
      → build_client Client build policy pinned ≡ ok client
      → Built policy pinned client
  unfolding build_client Built
  build_client-Built policy pinned h = ok_or-eq-ok (build (settings Client build policy pinned)) _ h

  pinned_client-Built :
      (policy : EndpointPolicy) (url : Url) (name : Text) (addresses : List SocketAddr)
      {client : Client}
      → pinned_client Client build policy url name addresses ≡ ok client
      → (is_empty addresses ≡ false)
        × All (λ a. MayReach policy a.ip) addresses
        × Built policy (some (name, addresses)) client
  unfolding pinned_client
  pinned_client-Built policy url name addresses h =
      let valid = after_check (validate policy url) h in
      let host = passed_check _ _ valid.1 in
      let some_address = passed_check _ _ host.1 in
      let allowed = passed_check _ _ some_address.1 in
      (
        some_address.0,
        all-allowed policy name addresses allowed.0,
        build_client-Built policy (some (name, addresses)) allowed.1,
      )

  module _ (lookup_host : Text → ℕ → Option (List SocketAddr)) where
    client_at-Reaches :
        (policy : EndpointPolicy) (url : Url) {client : Client}
        → IsSound policy url
        → (host : Option Host) → url.host ≡ host
        → client_at Client build lookup_host policy url host ≡ ok client
        → (pinned : Option (Text × List SocketAddr)) × Built policy pinned client
          × Reaches policy host pinned
    unfolding client_at
    client_at-Reaches policy url sound none at h = absurd (ground (arith, sound.based, at))
    client_at-Reaches policy url sound (some (address ip)) at h =
        (none, build_client-Built policy none h, (refl, host-MayReach policy url ip at sound))
    client_at-Reaches policy url sound (some (domain name)) at h =
        let (port, known, after_port) = >>=-eq-ok (ok_or url.port_or_known_default _) _ h in
        let (found, resolved, after_found) =
          >>=-eq-ok (ok_or (lookup_host name port) _) _ after_port in
        let addresses = dedup (sort_by socket_key found) in
        let (some_address, allowed, built) =
          pinned_client-Built policy url name addresses after_found in
        (some (name, addresses), built, (addresses, refl, some_address, allowed))

    -- A client that client_for gives for a URL is built from settings with the timeout of the policy, with no
    -- proxy and no redirects. The URL is hierarchical, has no user, password or fragment, and is https, or
    -- http if the policy allows it and the host is of the loopback. The address of the host, or else each of
    -- the addresses pinned for its domain, which are one at least, is public, or of the loopback if the
    -- policy allows that.
    pub client_for-Vetted :
        (policy : EndpointPolicy) (url : Url) {client : Client}
        → client_for Client build lookup_host policy url ≡ ok client
        → (s : Settings) × (build s ≡ some client) × Vetted policy url s
    unfolding client_for Built
    client_for-Vetted policy url h =
        let valid = after_check (validate policy url) h in
        let sound = validate-IsSound policy url valid.0 in
        let (pinned, built, reaches) = client_at-Reaches policy url sound url.host refl valid.1 in
        (
          settings Client build policy pinned,
          built,
          record {
            hierarchical = ground (arith, sound.based);
            no_user = ground (arith, sound.bare);
            no_password = absent url.password (ground (arith, sound.bare));
            no_fragment = absent url.fragment sound.whole;
            secure = secure_scheme policy url sound.scheme;
            no_redirects = refl;
            no_proxy = refl;
            same_timeout = refl;
            reaches = reaches;
          },
        )
