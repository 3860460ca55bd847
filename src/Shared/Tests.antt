-- ===== src/Shared/Tests.antt =====
-- Users, roles and tokens, and instances of the theorems on them.
use zk_dpp_royalty_protocol.Common.{
  String, ◌≡◌, refl, ◌↔◌, ◌⊎◌, true, none, some, List, [], ◌∷◌, In, includes,
}
use zk_dpp_royalty_protocol.Common.JsMap
use zk_dpp_royalty_protocol.Shared.RateLimit.{
  ip_whitelist, is_whitelisted, whitelist_aware_key_generator, error_response_builder, ceil_seconds,
}
use zk_dpp_royalty_protocol.Shared.Errors.Classes.{
  ours, plain, status_code, wrap_error, not_found_error,
}
use zk_dpp_royalty_protocol.Shared.Auth.Setup.{
  get_keycloak_config, auth_error_handler, as_authentication, sent, refused-sent,
}
use zk_dpp_royalty_protocol.Shared.Errors.{ZkDppError, get_http_status_from_code}
use zk_dpp_royalty_protocol.Shared.Rbac.{
  AuthUser, legit_interest, get_effective_roles, require_dpp_view_access,
}
use zk_dpp_royalty_protocol.Shared.Rbac.Roles.{
  get_effective_roles_iff, MayView, require_dpp_view_access_iff,
}
use zk_dpp_royalty_protocol.Shared.Auth.{
  TokenClaims, payload, AuthConfig, auth_pre_handler, extract_token, thrown, user_or_none,
  optional_auth_pre_handler,
}
use zk_dpp_royalty_protocol.Shared.Auth.Users.{Checked, auth-Checked, optional-auth}

abbrev authority_roles : List String
authority_roles = "authority" ∷ []

get_effective_roles_iff_example :
    (includes (get_effective_roles authority_roles) "brand" ≡ true) ↔ (
      In {A = String} "brand" authority_roles
      ⊎ (In {A = String} "authority" authority_roles
          × In {A = String} "brand" ("auditor" ∷ "brand" ∷ [])))
get_effective_roles_iff_example = get_effective_roles_iff authority_roles "brand"

abbrev supplier : AuthUser
supplier = record { id = "u-1"; email = none; username = none; roles = "supplier" ∷ [] }

require_dpp_view_access_iff_example :
    ((require_dpp_view_access legit_interest (some supplier) ≡ none)
      ↔ MayView legit_interest (some supplier))
    × ((e : ZkDppError)
        → require_dpp_view_access legit_interest (some supplier) ≡ some e
        → get_http_status_from_code e.code ≡ 403)
require_dpp_view_access_iff_example = require_dpp_view_access_iff legit_interest (some supplier)

abbrev claims : TokenClaims
claims = record {
  sub = "u-1";
  email = none;
  preferred_username = none;
  realm_roles = some ("auditor" ∷ []);
  resource_access = ("zkdpp-services", "brand" ∷ []) ∷ [];
}

abbrev config : AuthConfig
config = record { client_id = some "zkdpp-services"; jwt_verify = λ token. payload claims }

auth-Checked_example :
    Checked config (some "Bearer abc") (auth_pre_handler config (some "Bearer abc"))
auth-Checked_example = auth-Checked config (some "Bearer abc")

optional-auth_example :
    optional_auth_pre_handler config (some "Bearer abc")
    ≡ user_or_none (auth_pre_handler config (some "Bearer abc"))
optional-auth_example = optional-auth config (some "Bearer abc")

-- a request without a header, and what the client gets
no_header :
    auth_pre_handler config none
    ≡ thrown (record { code = "ZKDPP-AUTH-200"; message = "Authorization header required" })
unfolding auth_pre_handler extract_token
no_header = refl

refused-sent_example :
    auth_error_handler (
      ours (
        as_authentication
          (record { code = "ZKDPP-AUTH-200"; message = "Authorization header required" })))
    ≡ sent 401 (
        as_authentication
          (record { code = "ZKDPP-AUTH-200"; message = "Authorization header required" }))
refused-sent_example = refused-sent config none _ no_header

wrapped_status : status_code (wrap_error (plain "disk full")) ≡ 500
unfolding wrap_error get_http_status_from_code JsMap.get
wrapped_status = refl

named_resource :
    (not_found_error "Product" (some "p-1") none).error.message ≡ "Product not found: p-1"
named_resource = refl

default_config : get_keycloak_config none (some "") none ≡ record {
  issuer = "http://localhost:8080/realms/zkdpp";
  jwks_uri = "http://localhost:8080/realms/zkdpp/protocol/openid-connect/certs";
  audience = "zkdpp-services";
  client_id = "zkdpp-services";
}
unfolding get_keycloak_config
default_config = refl

rate_limit_message :
    (error_response_builder (λ n. "2") 100 1_001).message
    ≡ "Rate limit exceeded. Try again in 2 seconds."
unfolding error_response_builder ceil_seconds
rate_limit_message = refl

local_key :
    whitelist_aware_key_generator ip_whitelist (record { user_id = some "u-1"; ip = "::1" })
    ≡ "__whitelisted__"
unfolding whitelist_aware_key_generator is_whitelisted
local_key = refl

abbrev brand : AuthUser
brand = record { id = "u-2"; email = none; username = none; roles = "brand" ∷ [] }
