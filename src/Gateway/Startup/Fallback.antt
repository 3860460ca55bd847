-- ===== src/Gateway/Startup/Fallback.antt =====
-- What a gateway that has started accepts, from the environment it was started in.
use zk_dpp_royalty_protocol.Common.{
  ℕ, String, Bool, true, false, ◌≡◌, refl, sym, ◌∙◌, ap, subst, Option, none, some, ◌==◌, inl, inr,
  arith, Bool-cases, if◌then◌else◌,
}
use zk_dpp_royalty_protocol.Common.Results.{Result, ok, err}
use zk_dpp_royalty_protocol.Predicates.{PredicateDefinition}
use zk_dpp_royalty_protocol.Common.JsMap
use zk_dpp_royalty_protocol.Gateway.Types.{ProofPackage, VerificationReceipt, success}
use zk_dpp_royalty_protocol.Gateway.NonceStore.{NonceStore, set_window_ms}
use zk_dpp_royalty_protocol.Gateway.NoirCli.{ready, build_verifier_toml}
use zk_dpp_royalty_protocol.Gateway.NoirCli.Race.{
  IsInput, valid-accepted, build_verifier_toml-IsInput,
}
use zk_dpp_royalty_protocol.Gateway.Verifier.{
  predicate_key, Env, Readings, Backend, noir_cli, mock, other, verify_zk_proof, zk_backend_result,
  verify,
}
use zk_dpp_royalty_protocol.Gateway.Verifier.Laws.{verify_iff}
use zk_dpp_royalty_protocol.Gateway.Startup.{
  ProcessEnv, Parts, ServiceConfig, load_config, allow_mock_proofs, verify_toolchain, backend_of,
  verifier_of, fall_back, started, start, create_server,
}

-- A proof that a verifier accepts was accepted by nargo, or mock proofs are allowed.
accepted-cases :
    (env : Env) (p : PredicateDefinition) (pkg : ProofPackage)
    → (verify_zk_proof env p pkg).valid ≡ true
    → env.allow_mock ≡ false
    → (env.config.zk_backend ≡ noir_cli) × ((env.noir p pkg).valid ≡ true)
unfolding verify_zk_proof zk_backend_result
accepted-cases env p pkg valid off = go env.config.zk_backend refl (ground (arith, valid))
  where
    go :
        (b : Backend)
        → env.config.zk_backend ≡ b
        → (zk_backend_result env b p pkg).valid ≡ true
        → (env.config.zk_backend ≡ noir_cli) × ((env.noir p pkg).valid ≡ true)
    go noir_cli e h = (e, h)
    go mock e h = absurd (ground (arith, off, h))
    go other e h = absurd (cc h)

abbrev config_dir : ServiceConfig → Option String
config_dir c = c.noir_circuits_dir

config_is : {c d : ServiceConfig} → ◌≡◌ {A = Result ServiceConfig} (ok c) (ok d) → c ≡ d
config_is h = cc h

module _ (env : ProcessEnv) (nargo : String → Result (Unit {0})) where
  fall_back-noir_cli :
      (before config : ServiceConfig) (allowed : Bool) (version : Result (Unit {0}))
      → fall_back before allowed version ≡ ok config
      → backend_of config.zk_backend ≡ noir_cli
      → version ≡ ok tt
  fall_back-noir_cli before config allowed (ok u) h b = refl
  fall_back-noir_cli before config false (err e) h b = absurd (cc h)
  fall_back-noir_cli before config true (err e) h b =
      let is : record before { zk_backend = "mock" } ≡ config = cc h in
      absurd (cc (subst (λ c. backend_of c.zk_backend ≡ noir_cli) (sym is) b))

  -- The backend of nargo is only left in place if nargo has answered.
  verify_toolchain-noir_cli :
      (before config : ServiceConfig)
      → verify_toolchain env nargo before ≡ ok config
      → backend_of config.zk_backend ≡ noir_cli
      → nargo before.nargo_bin ≡ ok tt
  unfolding verify_toolchain
  verify_toolchain-noir_cli before config h b =
      elim (Bool-cases (before.zk_backend == "noir-cli")) [
        | inr e ↦
            let same : before ≡ config = cc (sym (kept e) ∙ h) in
            let b' = subst (λ c. backend_of c.zk_backend ≡ noir_cli) (sym same) b in
            absurd (ground (arith, e, b'))
        | inl e ↦
            fall_back-noir_cli before config (allow_mock_proofs env) (nargo before.nargo_bin)
              (sym (tried e) ∙ h) b
      ]
    where
      kept :
          (before.zk_backend == "noir-cli") ≡ false → verify_toolchain env nargo before ≡ ok before
      kept e = rw (e, verify_toolchain) refl

      tried :
          (before.zk_backend == "noir-cli") ≡ true
          → verify_toolchain env nargo before
            ≡ fall_back before (allow_mock_proofs env) (nargo before.nargo_bin)
      tried e = rw (e, verify_toolchain) refl

  fall_back-circuits_dir :
      (before config : ServiceConfig) (allowed : Bool) (version : Result (Unit {0}))
      → fall_back before allowed version ≡ ok config
      → config.noir_circuits_dir ≡ before.noir_circuits_dir
  fall_back-circuits_dir before config allowed (ok u) h = sym (ap config_dir (config_is h))
  fall_back-circuits_dir before config false (err e) h = absurd (cc h)
  fall_back-circuits_dir before config true (err e) h = sym (ap config_dir (config_is h))

  -- The check of the toolchain keeps the directory of the circuits.
  verify_toolchain-circuits_dir :
      (before config : ServiceConfig)
      → verify_toolchain env nargo before ≡ ok config
      → config.noir_circuits_dir ≡ before.noir_circuits_dir
  unfolding verify_toolchain
  verify_toolchain-circuits_dir before config h = go (before.zk_backend == "noir-cli") h
    where
      go :
          (b : Bool)
          → (if b
              then fall_back before (allow_mock_proofs env) (nargo before.nargo_bin)
              else ok before)
            ≡ ok config
          → config.noir_circuits_dir ≡ before.noir_circuits_dir
      go true k = fall_back-circuits_dir before config _ _ k
      go false k = sym (ap config_dir (config_is k))

module _ (parse_int : String → Option ℕ) (env : ProcessEnv) (nargo : String → Result (Unit {0}))
    (parts : Parts) (store : NonceStore) where
  -- What `createServer` has made when it has not thrown.
  pub record IsStarted (verifier : Env) (store' : NonceStore) : Type 0 where
    pub config : ServiceConfig
    pub window : ℕ
    pub toolchain : verify_toolchain env nargo (load_config parse_int env) ≡ ok config
    pub window_is : config.nonce_window_ms ≡ some window
    pub verifier_is : verifier ≡ verifier_of env parts config window
    pub store_is : store' ≡ set_window_ms store window

  pub create_server-IsStarted :
      (verifier : Env) (store' : NonceStore)
      → create_server parse_int env nargo parts store ≡ ok (verifier, store')
      → IsStarted verifier store'
  unfolding create_server
  create_server-IsStarted verifier store' h =
      go (verify_toolchain env nargo (load_config parse_int env)) refl h
    where
      pair_is :
          {x : Env × NonceStore}
          → ◌≡◌ {A = Result (Env × NonceStore)} (ok x) (ok (verifier, store'))
          → x ≡ (verifier, store')
      pair_is k = cc k

      windowed :
          (config : ServiceConfig) (o : Option ℕ)
          → verify_toolchain env nargo (load_config parse_int env) ≡ ok config
          → config.nonce_window_ms ≡ o
          → started env parts store o config ≡ ok (verifier, store')
          → IsStarted verifier store'
      windowed config none t w k = absurd (cc k)
      windowed config (some window) t w k = record {
        config = config;
        window = window;
        toolchain = t;
        window_is = w;
        verifier_is = sym (ap (λ x. x.0) (pair_is k));
        store_is = sym (ap (λ x. x.1) (pair_is k));
      }

      go :
          (x : Result ServiceConfig)
          → verify_toolchain env nargo (load_config parse_int env) ≡ x
          → start env parts store x ≡ ok (verifier, store')
          → IsStarted verifier store'
      go (err e) t k = absurd (cc k)
      go (ok config) t k = windowed config config.nonce_window_ms t refl k

  -- What nargo has accepted: the package's own proof, with the input file made of it, in the
  -- directory of the circuit that the registry names for the package.
  pub record IsVerified (circuits_dir : Option String) (pkg : ProofPackage) : Type 0 where
    pub predicate : PredicateDefinition
    pub dir : String
    pub toml : String
    pub registered : JsMap.get (predicate_key pkg) parts.registry ≡ some predicate
    pub compiled : ready parts.host circuits_dir predicate ≡ ok dir
    pub built : build_verifier_toml parts.host predicate pkg ≡ ok toml
    pub input : IsInput parts.host predicate pkg toml
    pub accepted :
        parts.host.nargo_verify dir (some (parts.host.hex_bytes pkg.proof)) (some toml) ≡ none

  -- A gateway that was started without ALLOW_MOCK_PROOFS=true gives a receipt, if no other request's
  -- files come between, only for a package whose own proof nargo has accepted on the input file made
  -- of the package, in the circuit of its registered predicate, and only if nargo answered when the
  -- gateway started; and its verifier and its nonce store use one time window.
  pub started-accepts :
      (verifier : Env) (store' s : NonceStore) (r : Readings) (pkg : ProofPackage)
      (receipt : VerificationReceipt)
      → allow_mock_proofs env ≡ false
      → create_server parse_int env nargo parts store ≡ ok (verifier, store')
      → (verify verifier r s pkg).0 ≡ success receipt
      → IsVerified (env "NOIR_CIRCUITS_DIR") pkg
        × (nargo (load_config parse_int env).nargo_bin ≡ ok tt)
        × (store'.window_ms ≡ verifier.config.nonce_window_ms)
  unfolding verifier_of set_window_ms
  started-accepts verifier store' s r pkg receipt off h got =
      let is = create_server-IsStarted verifier store' h in
      let issued = (verify_iff verifier r pkg s receipt).0 got in
      let accepted =
        accepted-cases (verifier_of env parts is.config is.window) issued.predicate pkg
          (subst (λ v. (verify_zk_proof v issued.predicate pkg).valid ≡ true) is.verifier_is
            issued.accepted)
          off in
      let same_dir : is.config.noir_circuits_dir ≡ env "NOIR_CIRCUITS_DIR" =
        unfold load_config in
        verify_toolchain-circuits_dir env nargo (load_config parse_int env) is.config
          is.toolchain in
      let (dir, toml, compiled, built, nargo_accepts) =
        valid-accepted parts.host is.config.noir_circuits_dir issued.predicate pkg parts.disk
          accepted.1 in
      let verified : IsVerified is.config.noir_circuits_dir pkg = record {
        predicate = issued.predicate;
        dir = dir;
        toml = toml;
        registered =
            subst (λ v. JsMap.get (predicate_key pkg) v.registry ≡ some issued.predicate)
              is.verifier_is issued.passes.found;
        compiled = compiled;
        built = built;
        input = build_verifier_toml-IsInput parts.host issued.predicate pkg toml built;
        accepted = nargo_accepts;
      } in
      (
        subst (λ d. IsVerified d pkg) same_dir verified,
        verify_toolchain-noir_cli env nargo (load_config parse_int env) is.config is.toolchain
            accepted.0,
        ap (λ x. x.window_ms) is.store_is ∙ sym (ap (λ v. v.config.nonce_window_ms) is.verifier_is),
      )
