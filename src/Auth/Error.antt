-- ===== src/Auth/Error.antt =====
-- `AuthError` of crates/auth/src/error.rs.
use mcp_loadtest.Base.{ℕ, String}
use mcp_loadtest.Auth.Texts.{Text}

pub data AuthError : Type 0 where
  unsafe_endpoint : (reason : String) → AuthError
  invalid_url : (kind : String) → AuthError
  network : (operation : String) → AuthError
  http_status : (operation : String) (status : ℕ) → AuthError
  response_too_large : (operation : String) → AuthError
  invalid_json : (operation : String) → AuthError
  invalid_challenge : AuthError
  resource_mismatch : AuthError
  missing_authorization_server : AuthError
  issuer_mismatch : AuthError
  missing_metadata : (field : String) → AuthError
  pkce_s256_unsupported : AuthError
  state_mismatch : AuthError
  missing_callback_issuer : AuthError
  callback_issuer_mismatch : AuthError
  authorization_rejected : (code : Text) → AuthError
  missing_authorization_code : AuthError
  invalid_authorization_callback : AuthError
  missing_credential : AuthError
  missing_client_secret : AuthError
  unsupported_token_endpoint_auth_method : AuthError
  invalid_token_response : AuthError
  invalid_authorization_header : AuthError
  missing_refresh_token : AuthError
  dynamic_registration_unsupported : AuthError
  step_up_retry_limit : AuthError
  loopback_callback : (operation : String) → AuthError
  redirect_mismatch : AuthError
