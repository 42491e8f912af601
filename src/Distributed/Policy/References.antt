-- ===== src/Distributed/Policy/References.antt =====
-- The references to environment variables that `validate_header_refs`
-- (crates/distributed/src/policy.rs) lets through.
use mcp_loadtest.Base.{String, true, false, List, [], ◌∷◌, ok, ◌≡◌, arith, All}
use mcp_loadtest.Base.Characters.{to_lowercase}
use mcp_loadtest.Distributed.Policy.Checks.{
  validate_header_refs, is_http_token, is_managed_remote_header, is_portable_env_name,
}

-- A header by its name, and the environment variable of its value.
pub record GoodReference (reference : String × String) : Type 0 where
  pub token : is_http_token reference.0 ≡ true
  pub own : is_managed_remote_header (to_lowercase reference.0) ≡ false
  pub portable : is_portable_env_name reference.1 ≡ true

pub good_references :
    (refs : List (String × String)) → validate_header_refs refs ≡ ok tt → All GoodReference refs
unfolding validate_header_refs
good_references [] h = tt
good_references ((header, environment) ∷ refs) h = (
  record { token = ground arith; own = ground arith; portable = ground arith },
  good_references refs (ground arith),
)
