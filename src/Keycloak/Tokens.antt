-- ===== src/Keycloak/Tokens.antt =====
-- The service tokens that packages/auth-client gives out, over all histories of calls.
use zk_dpp_royalty_protocol.Common.{
  ℕ, ◌+◌, ◌*◌, ◌<◌, String, Bool, true, false, ◌≡◌, refl, sym, ◌∙◌, subst, ◌⊎◌, inl, inr, Option,
  none, some, List, [], ◌∷◌, In, here, there, ltb, ltb→lt, truthy, Bool-cases, if◌then◌else◌, not,
}
use zk_dpp_royalty_protocol.Common.Results.{Result, ok, err}
use zk_dpp_royalty_protocol.Keycloak.Types.{
  KeycloakConfig, TokenResponse, ServiceAccountCredentials, OpenIdConfiguration, Platform, Request,
  Response, World, Outcome, raised, got, Call, Thrown, throw, ◌>>=◌, continue, return,
}
use zk_dpp_royalty_protocol.Keycloak.Client.{
  json, of_result, store_token, keep_token, token_request, client_id_of, client_secret_of,
  serve_cached, fetch, request_service_token, get_openid_configuration, get_service_token,
}
use zk_dpp_royalty_protocol.Keycloak.History.{
  Op, service, perform, after, Follows, Follows-refl, Follows-trans, sent-Follows,
  get_openid_configuration-IsSteady, perform-Follows,
}

module _ (p : Platform) (config : KeycloakConfig) where
  -- The token answers the request of a call in the history, with the credentials of that call.
  pub record IsIssued (ops : List Op) (expires_at : ℕ) (token : TokenResponse) : Type 0 where
    pub asked : ℕ
    pub credentials : Option ServiceAccountCredentials
    pub called : In (service asked credentials) ops
    pub sent : List Request
    pub endpoint : String
    pub response : Response
    pub answered :
        p.answer sent (
          token_request p config endpoint
            (client_id_of p config credentials)
            (client_secret_of p config credentials))
        ≡ ok response
    pub is_ok : response.is_ok ≡ true
    pub read : p.read_token response.body ≡ ok token
    pub expires : expires_at ≡ asked + token.expires_in * 1000

  abbrev pub IsTracked : List Op → World → Type 0
  IsTracked ops w =
      (token : TokenResponse) → w.service_token ≡ some token → IsIssued ops w.token_expires_at token

  IsIssued-there :
      (op : Op) (ops : List Op) (expires_at : ℕ) (token : TokenResponse)
      → IsIssued ops expires_at token
      → IsIssued (op ∷ ops) expires_at token
  IsIssued-there op ops expires_at token i = record {
    asked = i.asked;
    credentials = i.credentials;
    called = there i.called;
    sent = i.sent;
    endpoint = i.endpoint;
    response = i.response;
    answered = i.answered;
    is_ok = i.is_ok;
    read = i.read;
    expires = i.expires;
  }

  Follows-IsTracked :
      (op : Op) (ops : List Op) (w w' : World)
      → IsTracked ops w
      → Follows w w'
      → IsTracked (op ∷ ops) w'
  Follows-IsTracked op ops w w' tracked f token known =
      subst (λ e. IsIssued (op ∷ ops) e token) (sym f.token_expires_at)
        (IsIssued-there op ops w.token_expires_at token
          (tracked token (sym f.service_token ∙ known)))

  -- A text that a call at `now` gives out: of a token of the history, which was either asked for by
  -- a call at `now` or has more than 30 seconds left.
  pub record IsServed (ops : List Op) (now : ℕ) (text : String) : Type 0 where
    pub token : TokenResponse
    pub expires_at : ℕ
    pub issued : IsIssued ops expires_at token
    pub text_is : text ≡ token.access_token
    pub valid : (issued.asked ≡ now) ⊎ (now + 30_000 < expires_at)

  module _ (ops : List Op) (now : ℕ) (credentials : Option ServiceAccountCredentials) where
    abbrev this_op : Op
    this_op = service now credentials

    abbrev IsCached : World → (text : String) → Type 0
    IsCached w text =
        (token : TokenResponse) × (w.service_token ≡ some token) × (text ≡ token.access_token)

    -- What holds after the call: an error leaves the cache alone.
    abbrev Answers : World → Outcome String × World → Type 0
    Answers w (raised e, w') = Follows w w'
    Answers w (got text, w') =
        IsServed (this_op ∷ ops) now text × IsTracked (this_op ∷ ops) w' × IsCached w' text

    keep_token-Answers :
        (w w' : World) (sent : List Request) (endpoint : String) (response : Response)
        → Follows w w'
        → p.answer sent (
            token_request p config endpoint
              (client_id_of p config credentials)
              (client_secret_of p config credentials))
          ≡ ok response
        → Answers w (keep_token p config now response w')
    keep_token-Answers w w' sent endpoint response f answered =
        go response.is_ok (p.read_token response.body) _ refl refl
      where
        go :
            (b : Bool) (r : Result TokenResponse) (e : Thrown)
            → response.is_ok ≡ b
            → p.read_token response.body ≡ r
            → Answers w ((if not b then throw e else (json r >>= store_token p config now)) w')
        go false r e is read = f
        go true (err m) e is read = f
        go true (ok token) e is read =
            let issued : IsIssued (this_op ∷ ops) (now + token.expires_in * 1000) token = record {
              asked = now;
              credentials = credentials;
              called = here refl;
              sent = sent;
              endpoint = endpoint;
              response = response;
              answered = answered;
              is_ok = is;
              read = read;
              expires = refl;
            } in
            (
              record {
                token = token;
                expires_at = now + token.expires_in * 1000;
                issued = issued;
                text_is = refl;
                valid = inl refl;
              },
              λ t h.
                  subst (λ u. IsIssued (this_op ∷ ops) (now + token.expires_in * 1000) u) (cc h)
                    issued,
              (token, refl, refl),
            )

    request_service_token-Answers :
        (w : World)
        → Answers w (
            request_service_token p config now
              (client_id_of p config credentials)
              (client_secret_of p config credentials)
              w)
    unfolding request_service_token fetch
    request_service_token-Answers w =
        configured (get_openid_configuration p config w)
          (get_openid_configuration-IsSteady p config w)
      where
        request : OpenIdConfiguration → Request
        request c =
            token_request p config c.token_endpoint (client_id_of p config credentials)
              (client_secret_of p config credentials)

        ask : OpenIdConfiguration → World → Outcome Response × World
        ask c w' = (
          of_result (p.answer w'.requests (request c)),
          record w' { requests = request c ∷ w'.requests },
        )

        asked :
            (c : OpenIdConfiguration) (w' : World) (r : Result Response)
            → Follows w w'
            → p.answer w'.requests (request c) ≡ r
            → Answers w (
                continue
                  (of_result r, record w' { requests = request c ∷ w'.requests })
                  (keep_token p config now))
        asked c w' (err e) f answered = Follows-trans w w' _ f (sent-Follows p config w' _)
        asked c w' (ok response) f answered =
            keep_token-Answers w (record w' { requests = request c ∷ w'.requests }) w'.requests
              c.token_endpoint response (Follows-trans w w' _ f (sent-Follows p config w' _))
              answered

        configured :
            (x : Outcome OpenIdConfiguration × World)
            → Follows w x.1
            → Answers w (continue x λ c w'. continue (ask c w') (keep_token p config now))
        configured (raised e, w') f = f
        configured (got c, w') f = asked c w' (p.answer w'.requests (request c)) f refl

    serve_cached-Answers :
        (w : World) (o : Option TokenResponse) (fresh : Call String)
        → w.service_token ≡ o
        → IsTracked ops w
        → Answers w (fresh w)
        → Answers w (serve_cached p config now o w.token_expires_at fresh w)
    serve_cached-Answers w none fresh is tracked answers = answers
    serve_cached-Answers w (some token) fresh is tracked answers =
        go (ltb (now + 30_000) w.token_expires_at) refl
      where
        go :
            (b : Bool)
            → ltb (now + 30_000) w.token_expires_at ≡ b
            → Answers w ((if b then return token.access_token else fresh) w)
        go false late = answers
        go true early = (
          record {
            token = token;
            expires_at = w.token_expires_at;
            issued = IsIssued-there this_op ops w.token_expires_at token (tracked token is);
            text_is = refl;
            valid = inr (ltb→lt _ _ early);
          },
          Follows-IsTracked this_op ops w w tracked (Follows-refl w),
          (token, is, refl),
        )

    get_service_token-Answers :
        (w : World) → IsTracked ops w → Answers w (get_service_token p config now credentials w)
    unfolding get_service_token
    get_service_token-Answers w tracked =
        elim (Bool-cases (truthy (client_secret_of p config credentials))) [
          | inl e ↦ rw e (
              serve_cached-Answers w w.service_token _ refl tracked
                (request_service_token-Answers w))
          | inr e ↦ rw e (Follows-refl w)
        ]

    Answers-IsTracked :
        (w : World) (x : Outcome String × World)
        → IsTracked ops w
        → Answers w x
        → IsTracked (this_op ∷ ops) x.1
    Answers-IsTracked w (raised e, w') tracked f = Follows-IsTracked this_op ops w w' tracked f
    Answers-IsTracked w (got text, w') tracked (served, tracked', cached) = tracked'

  after-IsTracked : (ops : List Op) → IsTracked ops (after p config ops)
  unfolding after perform
  after-IsTracked [] = λ token h. absurd (cc h)
  after-IsTracked (service now c ∷ ops) =
      Answers-IsTracked ops now c (after p config ops) _ (after-IsTracked ops)
        (get_service_token-Answers ops now c (after p config ops) (after-IsTracked ops))
  after-IsTracked (op ∷ ops) =
      Follows-IsTracked op ops (after p config ops) _ (after-IsTracked ops)
        (perform-Follows p config op (after p config ops) (λ n c e. absurd (cc e)))

  module _ (ops : List Op) (now : ℕ) (credentials : Option ServiceAccountCredentials) where
    Answers-after :
        (x : Outcome String × World)
        → get_service_token p config now credentials (after p config ops) ≡ x
        → Answers ops now credentials (after p config ops) x
    Answers-after x h =
        subst (λ y. Answers ops now credentials (after p config ops) y) h
          (get_service_token-Answers ops now credentials (after p config ops) (after-IsTracked ops))

    -- Whatever calls a client has seen, the text that `getServiceToken` gives out is the token of an
    -- answer without error to a request made for one of the calls of its history, with the client
    -- and the secret of that call; that call was made at the present instant, or the lifetime of
    -- its token, counted from that call, has more than 30 seconds left.
    pub get_service_token-IsServed :
        (text : String) (w : World)
        → get_service_token p config now credentials (after p config ops) ≡ (got text, w)
        → IsServed (service now credentials ∷ ops) now text
    get_service_token-IsServed text w h = (Answers-after (got text, w) h).0
