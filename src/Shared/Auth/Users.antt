-- ===== src/Shared/Auth/Users.antt =====
-- Who a request is taken to be.
use mathlib.Core.List.{foldl}
use zk_dpp_royalty_protocol.Common.{
  String, ◌≡◌, ◌≢◌, refl, ap, sym, ◌∙◌, inl, inr, true, false, ◌||◌, Option, none, some, [], arith,
  truthy, or_else, includes, Bool-cases, Option-cases,
}
use zk_dpp_royalty_protocol.Common.JsMap
use zk_dpp_royalty_protocol.Shared.Errors.{get_http_status_from_code}
use zk_dpp_royalty_protocol.Shared.Rbac.{add_role}
use zk_dpp_royalty_protocol.Shared.Rbac.Roles.{includes-add_roles}
use zk_dpp_royalty_protocol.Shared.Auth.{
  TokenClaims, JwtResult, payload, jwt_expired, jws_signature_verification_failed, other_error,
  verified_of, user_or_none, AuthConfig, extract_token, client_roles, extract_roles, user, thrown,
  Verified, user_of, verify_token, auth_pre_handler, optional_auth_pre_handler,
}

-- A user's roles are the realm's and those of the configured client.
pub includes-extract_roles :
    (claims : TokenClaims) (client_id : Option String) (role : String)
    → includes (extract_roles claims client_id) role ≡ (
        includes (or_else claims.realm_roles []) role
        || includes (client_roles client_id claims.resource_access) role)
unfolding extract_roles
includes-extract_roles claims client_id role = ground (
  arith,
  includes-add_roles (client_roles client_id claims.resource_access)
      (foldl add_role [] (or_else claims.realm_roles [])) role,
  includes-add_roles (or_else claims.realm_roles []) [] role,
)

token_same : (t t' : String) → ◌≡◌ {A = Option String} (some t) (some t') → t ≡ t'
token_same t t' h = ground (arith, h)

module _ (config : AuthConfig) (header : Option String) where
  -- The request carries a token that is verified with these claims.
  abbrev pub Carries : TokenClaims → Type 0
  Carries claims =
      (token : String) × (extract_token header ≡ some token)
      × (truthy token ≡ true)
      × (config.jwt_verify token ≡ payload claims)

  -- What the check makes of a request: the user of the claims that its token is verified with, or,
  -- without such a token, an error with status 401.
  abbrev pub Checked : Verified → Type 0
  Checked (user u) = (claims : TokenClaims) × Carries claims × (u ≡ user_of config claims)
  Checked (thrown e) =
      ((claims : TokenClaims) → ¬ Carries claims) × (get_http_status_from_code e.code ≡ 401)

  no_token : extract_token header ≡ none → (claims : TokenClaims) → ¬ Carries claims
  no_token h claims (token, e, full, v) = absurd (cc (h, e))

  empty_token :
      (t : String)
      → extract_token header ≡ some t
      → truthy t ≡ false
      → (claims : TokenClaims) → ¬ Carries claims
  empty_token t h f claims (token, e, full, v) = absurd (ground (arith, h, e, f, full))

  not_verified :
      (t : String) (r : JwtResult)
      → extract_token header ≡ some t
      → config.jwt_verify t ≡ r
      → ((claims : TokenClaims) → ◌≢◌ {A = JwtResult} r (payload claims))
      → (claims : TokenClaims) → ¬ Carries claims
  not_verified t r h v other claims (token, e, full, v') =
      absurd (other claims (sym v ∙ ap config.jwt_verify (token_same t token (sym h ∙ e)) ∙ v'))

  verified-Checked :
      (t : String) (r : JwtResult)
      → extract_token header ≡ some t
      → truthy t ≡ true
      → config.jwt_verify t ≡ r
      → Checked (verified_of config r)
  unfolding get_http_status_from_code JsMap.get
  verified-Checked t (payload claims) h f v = (claims, (t, h, f, v), refl)
  verified-Checked t jwt_expired h f v = (not_verified t jwt_expired h v (λ c e. cc e), refl)
  verified-Checked t jws_signature_verification_failed h f v =
      (not_verified t jws_signature_verification_failed h v (λ c e. cc e), refl)
  verified-Checked t other_error h f v = (not_verified t other_error h v (λ c e. cc e), refl)

  -- The mandatory check lets a request pass exactly with a verified token, as the user of its
  -- claims; any other request it answers with 401.
  pub auth-Checked : Checked (auth_pre_handler config header)
  unfolding auth_pre_handler verify_token get_http_status_from_code JsMap.get
  auth-Checked = elim (Option-cases (extract_token header)) [
    | inl h ↦ rw (h, auth_pre_handler) (no_token h, refl)
    | inr (t, h) ↦ elim (Bool-cases (truthy t)) [
      | inr f ↦ rw (h, f, auth_pre_handler) (empty_token t h f, refl)
      | inl f ↦ rw (h, f, auth_pre_handler) (verified-Checked t (config.jwt_verify t) h f refl)
    ]
  ]

  -- The optional check never refuses a request: it gives the user that the mandatory one gives, and
  -- none where that one throws.
  pub optional-auth :
      optional_auth_pre_handler config header ≡ user_or_none (auth_pre_handler config header)
  unfolding optional_auth_pre_handler auth_pre_handler
  optional-auth = elim (Option-cases (extract_token header)) [
    | inl h ↦ rw (h, auth_pre_handler, optional_auth_pre_handler) refl
    | inr (t, h) ↦ elim (Bool-cases (truthy t)) [
      | inr f ↦ rw (h, f, auth_pre_handler, optional_auth_pre_handler) refl
      | inl f ↦ rw (h, f, auth_pre_handler, optional_auth_pre_handler) refl
    ]
  ]
