-- ===== src/Shared/Auth/Setup.antt =====
-- packages/shared/src/middleware/auth.ts: the configuration from the environment, and the handler of
-- authentication errors. The body of the answer leaves out details and time stamp.
use zk_dpp_royalty_protocol.Common.{ℕ, String, ◌≡◌, ap, subst, Option, or_text, ◌==◌, if◌then◌else◌}
use zk_dpp_royalty_protocol.Predicates.{◌⧺◌}
use zk_dpp_royalty_protocol.Shared.Errors.{ZkDppError}
use zk_dpp_royalty_protocol.Shared.Errors.Classes.{
  NamedError, Caught, ours, plain, anything, status_code,
}
use zk_dpp_royalty_protocol.Shared.Auth.Users.{Checked, auth-Checked}
use zk_dpp_royalty_protocol.Shared.Auth.{AuthConfig, thrown, auth_pre_handler}

-- The fields of `AuthConfig` that the environment gives.
pub record AuthSettings : Type 0 where
  pub issuer : String
  pub jwks_uri : String
  pub audience : String
  pub client_id : String

unfoldable pub get_keycloak_config :
    (keycloak_url keycloak_realm keycloak_client_id : Option String) → AuthSettings
get_keycloak_config keycloak_url keycloak_realm keycloak_client_id =
    let url = or_text keycloak_url "http://localhost:8080" in
    let realm = or_text keycloak_realm "zkdpp" in
    let client = or_text keycloak_client_id "zkdpp-services" in
    record {
      issuer = url ⧺ "/realms/" ⧺ realm;
      jwks_uri = url ⧺ "/realms/" ⧺ realm ⧺ "/protocol/openid-connect/certs";
      audience = client;
      client_id = client;
    }

-- The handler answers with a status and the error, or throws the error again.
pub data Handled : Type 0 where
  sent : (status : ℕ) (body : NamedError) → Handled
  thrown_again : Caught → Handled

unfoldable pub auth_error_handler : Caught → Handled
auth_error_handler (ours e) =
    if e.name == "AuthenticationError" then sent (status_code e) e else thrown_again (ours e)
auth_error_handler (plain message) = thrown_again (plain message)
auth_error_handler anything = thrown_again anything

-- `new AuthenticationError(e.message, e.code)`, which `verifyToken` and the pre-handler throw.
abbrev pub as_authentication : ZkDppError → NamedError
as_authentication e = record { name = "AuthenticationError"; error = e }

-- A request that the mandatory check does not let pass is answered with 401 and the check's error.
pub refused-sent :
    (config : AuthConfig) (header : Option String) (e : ZkDppError)
    → auth_pre_handler config header ≡ thrown e
    → auth_error_handler (ours (as_authentication e)) ≡ sent 401 (as_authentication e)
unfolding auth_error_handler
refused-sent config header e h =
    let checked : Checked config header (thrown e) =
      subst (Checked config header) h (auth-Checked config header) in
    ap (λ status. sent status (as_authentication e)) checked.1
