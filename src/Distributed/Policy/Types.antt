-- ===== src/Distributed/Policy/Types.antt =====
-- crates/distributed/src/policy.rs: the policy, its errors, and what the code reads of a parsed URL.
use mcp_loadtest.Base.{ℕ, ◌*◌, String, Bool, false, List, [], Option, Result}

-- What a `url::Url` says of itself.
pub record Url : Type 0 where
  pub scheme : String
  pub username : String
  pub password : Option String
  pub host_str : Option String
  pub fragment : Option String

-- `Url::parse` of the crate `url`, with the text of its error.
abbrev pub UrlParser : Type 0
UrlParser = String → Result String Url

-- `AgentPolicy`, whose `Duration`s are their numbers of nanoseconds.
pub record Policy : Type 0 where
  pub allowed_target_hosts : List (String × Unit {0})
  pub allow_plaintext : Bool
  pub max_concurrency : ℕ
  pub max_duration : ℕ
  pub max_startup_timeout : ℕ

abbrev pub seconds : ℕ → ℕ
seconds n = n * 1000000000

unfoldable pub default : Policy
default = record {
  allowed_target_hosts = [];
  allow_plaintext = false;
  max_concurrency = 10000;
  max_duration = seconds (24 * 60 * 60);
  max_startup_timeout = seconds (5 * 60);
}

-- `PolicyError`
pub data Error : Type 0 where
  invalid_shard : Error
  invalid_heartbeat_interval : Error
  concurrency : (requested maximum : ℕ) → Error
  duration : (requested_ms maximum_ms : ℕ) → Error
  invalid_workload : Error
  startup_timeout : (requested_ms maximum_ms : ℕ) → Error
  invalid_url : (text : String) → Error
  missing_host : Error
  url_credentials : Error
  url_fragment : Error
  scheme_mismatch : (transport scheme : String) → Error
  plaintext_denied : Error
  credential_over_plaintext : Error
  host_denied : (host : String) → Error
  restricted_address : (host : String) → Error
  invalid_header_name : (name : String) → Error
  invalid_environment_name : (name : String) → Error
  invalid_client_id : Error
  offline_access : Error
  step_up_retries : Error
  invalid_scope : (scope : String) → Error
