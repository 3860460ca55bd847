-- ===== src/Keycloak/Client.antt =====
-- packages/auth-client/src/index.ts: the methods of `KeycloakClient`. Calls are modelled one after
-- the other; `Date.now()` is an argument.
use zk_dpp_royalty_protocol.Common.{
  ℕ, ◌+◌, ◌*◌, String, not, Option, none, some, List, [], ◌∷◌, ◌++◌, ltb, truthy, or_text,
  if◌then◌else◌,
}
use zk_dpp_royalty_protocol.Common.Results.{Result, ok, err}
use zk_dpp_royalty_protocol.Predicates.{◌⧺◌}
use zk_dpp_royalty_protocol.Shared.Errors.{authentication_required, invalid_token, token_expired}
use zk_dpp_royalty_protocol.Keycloak.Types.{
  KeycloakConfig, TokenResponse, IntrospectionResponse, UserInfoResponse, ServiceAccountCredentials,
  OpenIdConfiguration, Request, Response, Platform, Thrown, authentication, platform, Outcome,
  raised, got, Call, ◌>>=◌, return, throw,
}

-- new AuthenticationError(message, code)
abbrev pub authentication_error : (message code : String) → Thrown
authentication_error message code = authentication (record { code = code; message = message })

abbrev pub of_result {ℓ} : {A : Type ℓ} → Result A → Outcome A
of_result (ok a) = got a
of_result (err e) = raised (platform e)

-- `await response.json()`
abbrev pub json {ℓ} : {A : Type ℓ} → Result A → Call A
json r = λ w. (of_result r, w)

-- `params.set(key, value)` under a test of a value that may be undefined
abbrev pub optional_param : String → Option String → List (String × String)
optional_param key none = []
optional_param key (some value) = if truthy value then (key, value) ∷ [] else []

abbrev pub credentials_id : Option ServiceAccountCredentials → Option String
credentials_id none = none
credentials_id (some c) = some c.client_id

abbrev pub credentials_secret : Option ServiceAccountCredentials → Option String
credentials_secret none = none
credentials_secret (some c) = some c.client_secret

module _ (p : Platform) (config : KeycloakConfig) where
  -- A request, which is sent whatever comes of it.
  unfoldable pub fetch : Request → Call Response
  fetch request w =
      (of_result (p.answer w.requests request), record w { requests = request ∷ w.requests })

  abbrev pub get : String → Request
  get url = record { url = url; form = none; authorization = none }

  abbrev pub post : String → List (String × String) → Request
  post url form = record { url = url; form = some form; authorization = none }

  abbrev pub realm_url : String
  realm_url = config.base_url ⧺ "/realms/" ⧺ config.realm

  abbrev pub store_configuration : OpenIdConfiguration → Call OpenIdConfiguration
  store_configuration c = λ w. (got c, record w { openid_config = some c })

  -- From the test of the answer to the end of `getOpenIdConfiguration`.
  abbrev pub keep_configuration : Response → Call OpenIdConfiguration
  keep_configuration response =
      if not response.is_ok
      then throw
          (authentication_error "Failed to fetch OpenID configuration" authentication_required)
      else (json (p.read_configuration response.body) >>= store_configuration)

  unfoldable pub fetch_configuration : Call OpenIdConfiguration
  fetch_configuration = do
    response ← fetch (get (realm_url ⧺ "/.well-known/openid-configuration"))
    keep_configuration response

  abbrev pub serve_configuration :
      Option OpenIdConfiguration → Call OpenIdConfiguration → Call OpenIdConfiguration
  serve_configuration none fresh = fresh
  serve_configuration (some c) fresh = return c

  unfoldable pub get_openid_configuration : Call OpenIdConfiguration
  get_openid_configuration w = serve_configuration w.openid_config fetch_configuration w

  unfoldable pub client_id_of : Option ServiceAccountCredentials → String
  client_id_of credentials = or_text (credentials_id credentials) config.client_id

  -- "" where neither has a secret
  unfoldable pub client_secret_of : Option ServiceAccountCredentials → String
  client_secret_of credentials =
      or_text (credentials_secret credentials) (or_text config.client_secret "")

  abbrev pub store_token : (now : ℕ) → TokenResponse → Call String
  store_token now token = λ w. (
    got token.access_token,
    record w { service_token = some token; token_expires_at = now + token.expires_in * 1000 },
  )

  unfoldable pub token_request : (endpoint client_id client_secret : String) → Request
  token_request endpoint client_id client_secret = post endpoint (
      ("grant_type", "client_credentials")
      ∷ ("client_id", client_id)
      ∷ ("client_secret", client_secret)
      ∷ [])

  -- From the test of the answer to the end of `getServiceToken`.
  abbrev pub keep_token : (now : ℕ) → Response → Call String
  keep_token now response =
      if not response.is_ok
      then throw (
          authentication_error ("Failed to obtain service token: " ⧺ response.body)
            authentication_required)
      else (json (p.read_token response.body) >>= store_token now)

  -- What follows the test of the cache, when the cache does not serve.
  unfoldable pub request_service_token : (now : ℕ) (client_id client_secret : String) → Call String
  request_service_token now client_id client_secret = do
    openid_config ← get_openid_configuration
    response ← fetch (token_request openid_config.token_endpoint client_id client_secret)
    keep_token now response

  -- `tokenExpiresAt - 30000` may be negative, so the bound is added to the other side.
  abbrev pub serve_cached :
      (now : ℕ) → Option TokenResponse → (expires_at : ℕ) → Call String → Call String
  serve_cached now none expires_at fresh = fresh
  serve_cached now (some token) expires_at fresh =
      if ltb (now + 30_000) expires_at then return token.access_token else fresh

  unfoldable pub get_service_token : (now : ℕ) → Option ServiceAccountCredentials → Call String
  get_service_token now credentials w =
      if not (truthy (client_secret_of credentials))
      then (
        raised (
            authentication_error "Client secret required for service account token"
              authentication_required),
        w,
      )
      else serve_cached now w.service_token w.token_expires_at
          (request_service_token now (client_id_of credentials) (client_secret_of credentials)) w

  unfoldable pub exchange_code :
      (code redirect_uri : String) (code_verifier : Option String) → Call TokenResponse
  exchange_code code redirect_uri code_verifier = do
    openid_config ← get_openid_configuration
    response ← fetch (
        post openid_config.token_endpoint (
          ("grant_type", "authorization_code")
            ∷ ("client_id", config.client_id)
            ∷ ("code", code)
            ∷ ("redirect_uri", redirect_uri)
            ∷ optional_param "client_secret" config.client_secret
          ++ optional_param "code_verifier" code_verifier))
    if not response.is_ok
        then throw (authentication_error ("Token exchange failed: " ⧺ response.body) invalid_token)
        else json (p.read_token response.body)

  unfoldable pub refresh_token : (token : String) → Call TokenResponse
  refresh_token token = do
    openid_config ← get_openid_configuration
    response ← fetch (
        post openid_config.token_endpoint (
          ("grant_type", "refresh_token")
          ∷ ("client_id", config.client_id)
          ∷ ("refresh_token", token)
          ∷ optional_param "client_secret" config.client_secret))
    if not response.is_ok
        then throw (authentication_error "Token refresh failed" token_expired)
        else json (p.read_token response.body)

  unfoldable pub introspect_token : (token : String) → Call IntrospectionResponse
  introspect_token token = do
    openid_config ← get_openid_configuration
    if not (truthy (or_text config.client_secret ""))
        then throw (
            authentication_error "Client secret required for token introspection"
              authentication_required)
        else (do
          response ← fetch (
              post openid_config.introspection_endpoint (
                ("token", token)
                ∷ ("client_id", config.client_id)
                ∷ ("client_secret", or_text config.client_secret "")
                ∷ []))
          if not response.is_ok
              then throw (authentication_error "Token introspection failed" invalid_token)
              else json (p.read_introspection response.body))

  unfoldable pub get_user_info : (access_token : String) → Call UserInfoResponse
  get_user_info access_token = do
    openid_config ← get_openid_configuration
    response ← fetch (record (get openid_config.userinfo_endpoint) {
      authorization = some ("Bearer " ⧺ access_token);
    })
    if not response.is_ok
        then throw (authentication_error "Failed to get user info" invalid_token)
        else json (p.read_user_info response.body)

  -- The text that the default of `scope` fills in is up to the caller of this definition.
  unfoldable pub get_authorization_url :
      (redirect_uri state : String) (code_challenge : Option String) (scope : String) → Call String
  get_authorization_url redirect_uri state code_challenge scope = do
    openid_config ← get_openid_configuration
    return (
        openid_config.authorization_endpoint
        ⧺ "?"
        ⧺ p.encode (
            ("client_id", config.client_id)
            ∷ ("redirect_uri", redirect_uri)
            ∷ ("response_type", "code")
            ∷ ("scope", scope)
            ∷ ("state", state)
            ∷ challenge_params code_challenge))
    where
      challenge_params : Option String → List (String × String)
      challenge_params none = []
      challenge_params (some c) =
          if truthy c then ("code_challenge", c) ∷ ("code_challenge_method", "S256") ∷ [] else []

  -- The answer to the request is not looked at.
  unfoldable pub logout : (token : Option String) → Call (Unit {0})
  logout token = do
    openid_config ← get_openid_configuration
    if not (truthy (or_text token "")) then return tt else (do
      _ ← fetch (
          post openid_config.end_session_endpoint (
            ("client_id", config.client_id)
            ∷ ("refresh_token", or_text token "")
            ∷ optional_param "client_secret" config.client_secret))
      return tt)

  unfoldable pub get_jwks_uri : Call String
  get_jwks_uri = do openid_config ← get_openid_configuration; return openid_config.jwks_uri
