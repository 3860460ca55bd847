-- ===== src/Keycloak/Tests.antt =====
-- Runs of the client on a small example, and the theorems applied to them.
use zk_dpp_royalty_protocol.Common.{String, true, ◌≡◌, refl, none, some, List, [], ◌∷◌, length}
use zk_dpp_royalty_protocol.Common.Results.{Result, ok, err}
use zk_dpp_royalty_protocol.Keycloak.Types.{
  KeycloakConfig, TokenResponse, ServiceAccountCredentials, OpenIdConfiguration, Platform,
}
use zk_dpp_royalty_protocol.Keycloak.Client.{
  get_service_token, client_secret_of, get_openid_configuration, fetch_configuration, fetch,
  request_service_token, token_request, get_jwks_uri,
}
use zk_dpp_royalty_protocol.Keycloak.History.{Op, service, jwks, perform, after}
use zk_dpp_royalty_protocol.Keycloak.Tokens.{IsServed, get_service_token-IsServed}

abbrev endpoints : OpenIdConfiguration
endpoints = record {
  issuer = "kc";
  authorization_endpoint = "kc/auth";
  token_endpoint = "kc/token";
  userinfo_endpoint = "kc/userinfo";
  jwks_uri = "kc/certs";
  introspection_endpoint = "kc/introspect";
  end_session_endpoint = "kc/logout";
}

abbrev token_of : String → Result TokenResponse
token_of text = ok (record {
  access_token = text;
  expires_in = 300;
  refresh_expires_in = 1800;
  refresh_token = none;
  token_type = "Bearer";
  scope = "email";
})

-- Every answer names the URL that was asked.
abbrev keycloak : Platform
keycloak = record {
  answer = λ sent request. ok (record { is_ok = true; body = request.url });
  read_configuration = λ body. ok endpoints;
  read_token = token_of;
  read_introspection = λ body. err "unread";
  read_user_info = λ body. err "unread";
  encode = λ form. "";
}

abbrev config : KeycloakConfig
config = record {
  base_url = "http://kc";
  realm = "zkdpp";
  client_id = "zkdpp-services";
  client_secret = some "s3cret";
}

abbrev other_client : ServiceAccountCredentials
other_client = record { client_id = "other"; client_secret = "t0ken" }

abbrev earlier : List Op
earlier = jwks ∷ []

first_expiry :
    (get_service_token keycloak config 1000 none (after keycloak config earlier)).1.token_expires_at
    ≡ 301_000
unfolding get_service_token after perform get_jwks_uri client_secret_of get_openid_configuration
    fetch_configuration fetch request_service_token token_request
first_expiry = refl

first_requests :
    length (get_service_token keycloak config 1000 none (after keycloak config earlier)).1.requests
    ≡ 2
unfolding get_service_token after perform get_jwks_uri client_secret_of get_openid_configuration
    fetch_configuration fetch request_service_token token_request
first_requests = refl

get_service_token-IsServed_example :
    IsServed keycloak config (service 1000 none ∷ earlier) 1000 "kc/token"
unfolding get_service_token after perform get_jwks_uri client_secret_of get_openid_configuration
    fetch_configuration fetch request_service_token token_request
get_service_token-IsServed_example =
    get_service_token-IsServed keycloak config earlier 1000 none "kc/token"
      (get_service_token keycloak config 1000 none (after keycloak config earlier)).1 refl
