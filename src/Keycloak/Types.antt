-- ===== src/Keycloak/Types.antt =====
-- packages/auth-client/src/types.ts, the client's private fields, and calls that may throw after
-- changing them.
use zk_dpp_royalty_protocol.Common.{ℕ, String, Bool, Option, none, List, []}
use zk_dpp_royalty_protocol.Common.Results.{Result}
use zk_dpp_royalty_protocol.Shared.Errors.{ZkDppError}

pub record KeycloakConfig : Type 0 where
  pub base_url : String
  pub realm : String
  pub client_id : String
  pub client_secret : Option String

pub record TokenResponse : Type 0 where
  pub access_token : String
  pub expires_in : ℕ
  pub refresh_expires_in : ℕ
  pub refresh_token : Option String
  pub token_type : String
  pub scope : String

-- `realm_access` and `resource_access` are the roles in them.
pub record IntrospectionResponse : Type 0 where
  pub active : Bool
  pub sub : Option String
  pub client_id : Option String
  pub username : Option String
  pub token_type : Option String
  pub exp : Option ℕ
  pub iat : Option ℕ
  pub nbf : Option ℕ
  pub aud : List String
  pub iss : Option String
  pub scope : Option String
  pub realm_access : List String
  pub resource_access : List (String × List String)

pub record UserInfoResponse : Type 0 where
  pub sub : String
  pub email : Option String
  pub email_verified : Option Bool
  pub preferred_username : Option String
  pub name : Option String
  pub given_name : Option String
  pub family_name : Option String
  pub groups : List String

pub record ServiceAccountCredentials : Type 0 where
  pub client_id : String
  pub client_secret : String

pub record OpenIdConfiguration : Type 0 where
  pub issuer : String
  pub authorization_endpoint : String
  pub token_endpoint : String
  pub userinfo_endpoint : String
  pub jwks_uri : String
  pub introspection_endpoint : String
  pub end_session_endpoint : String

-- A GET has no form; the header `Authorization` is the last field.
pub record Request : Type 0 where
  pub url : String
  pub form : Option (List (String × String))
  pub authorization : Option String

pub record Response : Type 0 where
  pub is_ok : Bool
  pub body : String

-- What the client takes from the platform: `fetch`, which throws when there is no answer and whose
-- answer may depend on all requests sent so far, `response.json()` at each type, and the text of
-- `URLSearchParams`.
pub record Platform : Type 0 where
  pub answer : List Request → Request → Result Response
  pub read_configuration : String → Result OpenIdConfiguration
  pub read_token : String → Result TokenResponse
  pub read_introspection : String → Result IntrospectionResponse
  pub read_user_info : String → Result UserInfoResponse
  pub encode : List (String × String) → String

-- The client's fields, and the requests that it has sent, the latest first.
pub record World : Type 0 where
  pub openid_config : Option OpenIdConfiguration
  pub service_token : Option TokenResponse
  pub token_expires_at : ℕ
  pub requests : List Request

-- An `AuthenticationError`, or an error of the platform.
pub data Thrown : Type 0 where
  authentication : ZkDppError → Thrown
  platform : String → Thrown

pub data Outcome {ℓ} (A : Type ℓ) : Type ℓ where
  raised : Thrown → Outcome A
  got : A → Outcome A

abbrev pub Call {ℓ} : Type ℓ → Type ℓ
Call A = World → Outcome A × World

-- What follows a call, once it has run.
abbrev pub continue {ℓ κ} :
    {A : Type ℓ} {B : Type κ} → Outcome A × World → (A → Call B) → Outcome B × World
continue (got a, w) k = k a w
continue (raised e, w) k = (raised e, w)

infixl 5 ◌>>=◌
abbrev pub ◌>>=◌ {ℓ κ} : {A : Type ℓ} {B : Type κ} → Call A → (A → Call B) → Call B
call >>= k = λ w. continue (call w) k

abbrev pub return {ℓ} : {A : Type ℓ} → A → Call A
return a = λ w. (got a, w)

abbrev pub throw {ℓ} : {A : Type ℓ} → Thrown → Call A
throw e = λ w. (raised e, w)

abbrev pub new : World
new = record { openid_config = none; service_token = none; token_expires_at = 0; requests = [] }
