-- ===== src/Shared/Auth.antt =====
-- packages/shared/src/middleware/auth.ts: the user of a request, from its bearer token. The
-- verification of a token (the package jose with the keys of the issuer) is an argument. The key set
-- is created once and the log context is set; neither is part of the result.
pub mod Users
pub mod Setup
use Prim.Native.Char.{code}
use Prim.Native.String
use mathlib.Core.List.{foldl}
use zk_dpp_royalty_protocol.Common.{
  ℕ, String, Bool, true, false, ◌&&◌, Option, none, some, List, [], ◌∷◌, eqb, truthy, or_else,
  if◌then◌else◌,
}
use zk_dpp_royalty_protocol.Common.JsMap
use zk_dpp_royalty_protocol.Shared.Errors.{
  ZkDppError, authentication_required, invalid_token, token_expired,
}
use zk_dpp_royalty_protocol.Shared.Rbac.{AuthUser, add_role}

-- The claims that are read; a missing list of roles is `none`.
pub record TokenClaims : Type 0 where
  pub sub : String
  pub email : Option String
  pub preferred_username : Option String
  pub realm_roles : Option (List String)
  -- the roles of each client in `resource_access`
  pub resource_access : List (String × List String)

-- What `jose.jwtVerify` gives: the claims, or the class of its error.
pub data JwtResult : Type 0 where
  payload : (claims : TokenClaims) → JwtResult
  jwt_expired jws_signature_verification_failed other_error : JwtResult

pub record AuthConfig : Type 0 where
  pub client_id : Option String
  -- `jose.jwtVerify` with the issuer, audience and keys of the configuration
  pub jwt_verify : String → JwtResult

-- `s.startsWith(prefix)`, and `s.slice(prefix.length)` for such an s
abbrev pub strip_prefix : (prefix : String) → String → Option String
strip_prefix String.[] s = some s
strip_prefix (String.◌∷◌ c p) String.[] = none
strip_prefix (String.◌∷◌ c p) (String.◌∷◌ d s) =
    let rest = strip_prefix p s in if eqb (code c) (code d) then rest else none

-- Of the Authorization header; "" is no token for the callers below.
unfoldable pub extract_token : Option String → Option String
extract_token none = none
extract_token (some header) = strip_prefix "Bearer " header

abbrev add_roles : List String → List String → List String
add_roles roles more = foldl add_role roles more

abbrev client_roles : Option String → List (String × List String) → List String
client_roles none access = []
client_roles (some client) access =
    if truthy client then or_else (JsMap.get client access) [] else []

unfoldable pub extract_roles : TokenClaims → Option String → List String
extract_roles claims client_id =
    add_roles (add_roles [] (or_else claims.realm_roles []))
      (client_roles client_id claims.resource_access)

-- The user, or the error that is thrown.
pub data Verified : Type 0 where
  user : AuthUser → Verified
  thrown : ZkDppError → Verified

unfoldable pub user_of : AuthConfig → TokenClaims → AuthUser
user_of config claims = record {
  id = claims.sub;
  email = claims.email;
  username = claims.preferred_username;
  roles = extract_roles claims config.client_id;
}

abbrev pub verified_of : AuthConfig → JwtResult → Verified
verified_of config (payload claims) = user (user_of config claims)
verified_of config jwt_expired = thrown (record { code = token_expired; message = "Token expired" })
verified_of config jws_signature_verification_failed =
    thrown (record { code = invalid_token; message = "Invalid token signature" })
verified_of config other_error = thrown (record { code = invalid_token; message = "Invalid token" })

unfoldable pub verify_token : String → AuthConfig → Verified
verify_token token config = verified_of config (config.jwt_verify token)

abbrev required : AuthConfig → Option String → Verified
required config none =
    thrown (record { code = authentication_required; message = "Authorization header required" })
required config (some token) =
    if truthy token
    then verify_token token config
    else thrown
        (record { code = authentication_required; message = "Authorization header required" })

-- `createAuthPreHandler`: the user of the request, or the error.
unfoldable pub auth_pre_handler : AuthConfig → (header : Option String) → Verified
auth_pre_handler config header = required config (extract_token header)

abbrev pub user_or_none : Verified → Option AuthUser
user_or_none (user u) = some u
user_or_none (thrown e) = none

abbrev optional : AuthConfig → Option String → Option AuthUser
optional config none = none
optional config (some token) =
    if truthy token then user_or_none (verify_token token config) else none

-- `createOptionalAuthPreHandler`: the user of the request, which it never refuses.
unfoldable pub optional_auth_pre_handler : AuthConfig → (header : Option String) → Option AuthUser
optional_auth_pre_handler config header = optional config (extract_token header)
