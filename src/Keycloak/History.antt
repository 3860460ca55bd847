-- ===== src/Keycloak/History.antt =====
-- Histories of calls of the methods of packages/auth-client, and what a call leaves as it was.
use zk_dpp_royalty_protocol.Common.{
  ℕ, String, Bool, true, false, ◌≡◌, refl, ◌∙◌, Option, none, some, List, [], ◌∷◌, if◌then◌else◌,
  not, truthy, or_text, ◌≢◌,
}
use zk_dpp_royalty_protocol.Common.Results.{Result, ok, err}
use zk_dpp_royalty_protocol.Predicates.{◌⧺◌}
use zk_dpp_royalty_protocol.Keycloak.Types.{
  KeycloakConfig, ServiceAccountCredentials, OpenIdConfiguration, Platform, Request, Response,
  World, Outcome, raised, got, Call, Thrown, continue, throw, ◌>>=◌, new,
}
use zk_dpp_royalty_protocol.Keycloak.Client.{
  json, of_result, get, realm_url, store_configuration, keep_configuration, serve_configuration,
  fetch, fetch_configuration, get_openid_configuration, get_service_token, exchange_code,
  refresh_token, introspect_token, get_user_info, get_authorization_url, logout, get_jwks_uri,
}

pub data Op : Type 0 where
  service : (now : ℕ) → Option ServiceAccountCredentials → Op
  exchange : (code redirect_uri : String) (code_verifier : Option String) → Op
  refresh introspect user_info : (token : String) → Op
  authorization_url :
      (redirect_uri state : String) (code_challenge : Option String) (scope : String) → Op
  sign_out : (token : Option String) → Op
  jwks : Op

module _ (p : Platform) (config : KeycloakConfig) where
  unfoldable pub perform : Op → World → World
  perform (service now c) w = (get_service_token p config now c w).1
  perform (exchange code uri verifier) w = (exchange_code p config code uri verifier w).1
  perform (refresh token) w = (refresh_token p config token w).1
  perform (introspect token) w = (introspect_token p config token w).1
  perform (user_info token) w = (get_user_info p config token w).1
  perform (authorization_url uri s challenge scope) w =
      (get_authorization_url p config uri s challenge scope w).1
  perform (sign_out token) w = (logout p config token w).1
  perform jwks w = (get_jwks_uri p config w).1

  -- A new client after a history of calls, the latest first.
  unfoldable pub after : List Op → World
  after [] = new
  after (op ∷ ops) = perform op (after ops)

-- What every call but that for a service token keeps: a known configuration, and the cached token.
pub record Follows (w w' : World) : Type 0 where
  pub known : (c : OpenIdConfiguration) → w.openid_config ≡ some c → w'.openid_config ≡ some c
  pub service_token : w'.service_token ≡ w.service_token
  pub token_expires_at : w'.token_expires_at ≡ w.token_expires_at

pub Follows-refl : (w : World) → Follows w w
Follows-refl w = record { known = λ c h. h; service_token = refl; token_expires_at = refl }

pub Follows-trans : (u v w : World) → Follows u v → Follows v w → Follows u w
Follows-trans u v w f g = record {
  known = λ c h. g.known c (f.known c h);
  service_token = g.service_token ∙ f.service_token;
  token_expires_at = g.token_expires_at ∙ f.token_expires_at;
}

abbrev pub IsSteady {ℓ} : {A : Type ℓ} → Call A → Type 0
IsSteady call = (w : World) → Follows w (call w).1

module _ {ℓ κ} {A : Type ℓ} {B : Type κ} where
  pub continue-Satisfies {ν} :
      (Q : Outcome B × World → Type ν) (x : Outcome A × World) (k : A → Call B)
      → ((e : Thrown) (w : World) → x ≡ (raised e, w) → Q (raised e, w))
      → ((a : A) (w : World) → x ≡ (got a, w) → Q (k a w))
      → Q (continue x k)
  continue-Satisfies Q (raised e, w) k fails goes = fails e w refl
  continue-Satisfies Q (got a, w) k fails goes = goes a w refl

  continue-Follows :
      (u : World) (x : Outcome A × World) (k : A → Call B)
      → Follows u x.1
      → ((a : A) → IsSteady (k a))
      → Follows u (continue x k).1
  continue-Follows u (raised e, w) k f s = f
  continue-Follows u (got a, w) k f s = Follows-trans u w (k a w).1 f (s a w)

  pub bind-IsSteady :
      (call : Call A) (k : A → Call B)
      → IsSteady call
      → ((a : A) → IsSteady (k a))
      → IsSteady (call >>= k)
  bind-IsSteady call k f s = λ w. continue-Follows w (call w) k (f w) s

module _ {ℓ} {A : Type ℓ} where
  pub json-IsSteady : (r : Result A) → IsSteady (json r)
  json-IsSteady r = λ w. Follows-refl w

  pub if-IsSteady :
      (b : Bool) (x y : Call A) → IsSteady x → IsSteady y → IsSteady (if b then x else y)
  if-IsSteady true x y f g = f
  if-IsSteady false x y f g = g

module _ (p : Platform) (config : KeycloakConfig) where
  pub sent-Follows :
      (w : World) (requests : List Request) → Follows w (record w { requests = requests })
  sent-Follows w requests = record {
    known = λ c h. h;
    service_token = refl;
    token_expires_at = refl;
  }

  pub fetch-IsSteady : (request : Request) → IsSteady (fetch p config request)
  unfolding fetch
  fetch-IsSteady request = λ w. sent-Follows w (request ∷ w.requests)

  -- A configuration replaces none.
  store_configuration-Follows :
      (b : Bool) (e : Thrown) (r : Result OpenIdConfiguration) (w : World)
      → w.openid_config ≡ none
      → Follows w ((if not b then throw e else (json r >>= store_configuration p config)) w).1
  store_configuration-Follows false e r w unknown = Follows-refl w
  store_configuration-Follows true e (err m) w unknown = Follows-refl w
  store_configuration-Follows true e (ok c) w unknown = record {
    known = λ c' h. absurd (cc (h, unknown));
    service_token = refl;
    token_expires_at = refl;
  }

  fetch_configuration-Follows :
      (w : World) → w.openid_config ≡ none → Follows w (fetch_configuration p config w).1
  unfolding fetch_configuration fetch
  fetch_configuration-Follows w unknown = go (p.answer w.requests discovery)
    where
      discovery : Request
      discovery = get p config (realm_url p config ⧺ "/.well-known/openid-configuration")

      sent : World → World
      sent u = record u { requests = discovery ∷ u.requests }

      go :
          (r : Result Response)
          → Follows w (continue (of_result r, sent w) (keep_configuration p config)).1
      go (err e) = sent-Follows w (discovery ∷ w.requests)
      go (ok r) =
          Follows-trans w (sent w) _ (sent-Follows w (discovery ∷ w.requests))
            (store_configuration-Follows r.is_ok _ (p.read_configuration r.body) (sent w) unknown)

  serve_configuration-Follows :
      (o : Option OpenIdConfiguration) (w : World)
      → w.openid_config ≡ o
      → Follows w (serve_configuration p config o (fetch_configuration p config) w).1
  serve_configuration-Follows none w h = fetch_configuration-Follows w h
  serve_configuration-Follows (some c) w h = Follows-refl w

  pub get_openid_configuration-IsSteady : IsSteady (get_openid_configuration p config)
  unfolding get_openid_configuration
  get_openid_configuration-IsSteady = λ w. serve_configuration-Follows w.openid_config w refl

  configured-IsSteady {ℓ} :
      {A : Type ℓ} (k : OpenIdConfiguration → Call A)
      → ((c : OpenIdConfiguration) → IsSteady (k c))
      → IsSteady (get_openid_configuration p config >>= k)
  configured-IsSteady k s =
      bind-IsSteady (get_openid_configuration p config) k get_openid_configuration-IsSteady s

  fetched-IsSteady {ℓ} :
      {A : Type ℓ} (request : Request) (k : Response → Call A)
      → ((r : Response) → IsSteady (k r))
      → IsSteady (fetch p config request >>= k)
  fetched-IsSteady request k s = bind-IsSteady (fetch p config request) k (fetch-IsSteady request) s

  -- A test of the answer, and then its value.
  checked-IsSteady {ℓ} :
      {A : Type ℓ} (b : Bool) (e : Thrown) (r : Result A)
      → IsSteady (if not b then throw e else json r)
  checked-IsSteady b e r = if-IsSteady (not b) (throw e) (json r) Follows-refl Follows-refl

  -- Every call but that for a service token keeps the cached one.
  pub perform-Follows :
      (op : Op) (w : World)
      → ((now : ℕ) (c : Option ServiceAccountCredentials) → op ≢ service now c)
      → Follows w (perform p config op w)
  unfolding perform exchange_code refresh_token introspect_token get_user_info get_authorization_url
      logout get_jwks_uri
  perform-Follows (service now c) w other = absurd (other now c refl)
  perform-Follows (exchange code uri verifier) w _ =
      configured-IsSteady _ (λ c. fetched-IsSteady _ _ (λ r. checked-IsSteady r.is_ok _ _)) w
  perform-Follows (refresh token) w _ =
      configured-IsSteady _ (λ c. fetched-IsSteady _ _ (λ r. checked-IsSteady r.is_ok _ _)) w
  perform-Follows (introspect token) w _ =
      configured-IsSteady _
        (λ c.
          if-IsSteady (not (truthy (or_text config.client_secret ""))) _ _ Follows-refl
            (fetched-IsSteady _ _ (λ r. checked-IsSteady r.is_ok _ _)))
        w
  perform-Follows (user_info token) w _ =
      configured-IsSteady _ (λ c. fetched-IsSteady _ _ (λ r. checked-IsSteady r.is_ok _ _)) w
  perform-Follows (authorization_url uri s challenge scope) w _ =
      configured-IsSteady _ (λ c. Follows-refl) w
  perform-Follows (sign_out token) w _ =
      configured-IsSteady _
        (λ c.
          if-IsSteady (not (truthy (or_text token ""))) _ _ Follows-refl
            (fetched-IsSteady _ _ (λ r. Follows-refl)))
        w
  perform-Follows jwks w _ = configured-IsSteady _ (λ c. Follows-refl) w
