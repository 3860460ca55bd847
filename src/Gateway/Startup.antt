-- ===== src/Gateway/Startup.antt =====
-- services/verify-gateway/src/index.ts and routes/health.ts: the configuration from the environment,
-- the fallback from nargo to the mock verifier, the optional event bus, and the health routes.
-- `parseInt` is an argument (`none` for NaN), and so is NATS; the plugins of Fastify are left out.
pub mod Fallback
pub mod Readiness
mod Tests
use zk_dpp_royalty_protocol.Common.{
  ℕ, String, Bool, true, false, not, Option, none, some, List, [], ◌∷◌, ◌==◌, or_text,
  if◌then◌else◌,
}
use zk_dpp_royalty_protocol.Common.Results.{Result, ok, err}
use zk_dpp_royalty_protocol.Common.Exec.{Exec, ◌>>◌, caught, pure}
use zk_dpp_royalty_protocol.Predicates.{Registry, PredicateDefinition}
use zk_dpp_royalty_protocol.Gateway.Types.{ProofPackage, ProofResult}
use zk_dpp_royalty_protocol.Gateway.NonceStore.{NonceStore, set_window_ms}
use zk_dpp_royalty_protocol.Gateway.NoirCli.{Host, Disk, verify_with_noir_cli}
use zk_dpp_royalty_protocol.Gateway.Verifier.{Backend, noir_cli, mock, other, Config, Env, Payload}
use zk_dpp_royalty_protocol.EventBus.Client.{
  EventBusConfig, Nats, World, connect, ensure_streams, is_connected,
}
use zk_dpp_royalty_protocol.EventBus.Client as Bus

-- process.env
abbrev pub ProcessEnv : Type 0
ProcessEnv = String → Option String

pub record ServiceConfig : Type 0 where
  pub port : Option ℕ
  pub host : String
  pub nats_url : String
  pub signing_key_id : String
  pub signing_key_private : String
  pub nonce_window_ms : Option ℕ
  pub zk_backend : String
  pub nargo_bin : String
  pub noir_circuits_dir : Option String

unfoldable pub load_config : (parse_int : String → Option ℕ) → ProcessEnv → ServiceConfig
load_config parse_int env = record {
  port = parse_int (or_text (env "PORT") "3001");
  host = or_text (env "HOST") "0.0.0.0";
  nats_url = or_text (env "NATS_URL") "nats://localhost:4222";
  signing_key_id = or_text (env "SIGNING_KEY_ID") "gateway-key-001";
  signing_key_private = or_text (env "SIGNING_KEY_PRIVATE") "";
  nonce_window_ms = parse_int (or_text (env "NONCE_WINDOW_MS") "300000");
  zk_backend = or_text (env "ZK_BACKEND") "noir-cli";
  nargo_bin = or_text (env "NARGO_BIN") "nargo";
  noir_circuits_dir = env "NOIR_CIRCUITS_DIR";
}

abbrev is_true_text : Option String → Bool
is_true_text none = false
is_true_text (some s) = s == "true"

-- process.env.ALLOW_MOCK_PROOFS === 'true'
abbrev pub allow_mock_proofs : ProcessEnv → Bool
allow_mock_proofs env = is_true_text (env "ALLOW_MOCK_PROOFS")

abbrev pub fall_back :
    ServiceConfig → (allowed : Bool) → (version : Result (Unit {0})) → Result ServiceConfig
fall_back config allowed (ok u) = ok config
fall_back config allowed (err e) =
    if allowed
    then ok (record config { zk_backend = "mock" })
    else err "Noir CLI not available. Set NARGO_BIN or enable ALLOW_MOCK_PROOFS."

-- The check of the toolchain; `nargo` runs `nargo --version` for a path.
unfoldable pub verify_toolchain :
    ProcessEnv → (nargo : String → Result (Unit {0})) → ServiceConfig → Result ServiceConfig
verify_toolchain env nargo config =
    if config.zk_backend == "noir-cli"
    then fall_back config (allow_mock_proofs env) (nargo config.nargo_bin)
    else ok config

abbrev pub backend_of : String → Backend
backend_of zk_backend =
    if zk_backend == "noir-cli" then noir_cli else if zk_backend == "mock" then mock else other

-- What the verifier is made of besides the configuration.
pub record Parts : Type 0 where
  pub registry : Registry
  pub gateway_id : String
  -- the host of the circuits, and what their directories hold when a proof is verified
  pub host : Host
  pub disk : Disk
  pub private_key : Option (Payload → Result String)

-- The verifier, for one call whose proof no other request's files come between (Gateway/NoirCli/Race
-- shows what can happen otherwise), of a configuration whose time window is the number `window`.
unfoldable pub verifier_of : ProcessEnv → Parts → ServiceConfig → (window : ℕ) → Env
verifier_of env parts config window = record {
  registry = parts.registry;
  config = record {
    gateway_id = parts.gateway_id;
    zk_backend = backend_of config.zk_backend;
    nonce_window_ms = window;
  };
  allow_mock = allow_mock_proofs env;
  noir = λ p pkg. (verify_with_noir_cli parts.host config.noir_circuits_dir p pkg parts.disk).0;
  private_key = parts.private_key;
}

abbrev pub started :
    ProcessEnv → Parts → NonceStore → Option ℕ → ServiceConfig → Result (Env × NonceStore)
started env parts store none config = err "NaN"
started env parts store (some window) config =
    ok (verifier_of env parts config window, set_window_ms store window)

abbrev pub start :
    ProcessEnv → Parts → NonceStore → Result ServiceConfig → Result (Env × NonceStore)
start env parts store (err e) = err e
start env parts store (ok config) = started env parts store config.nonce_window_ms config

-- `createServer` on the configuration of the environment, as far as it makes the verifier and sets
-- the nonce store's window. A window that is no number is not modelled: it is an error here.
unfoldable pub create_server :
    (parse_int : String → Option ℕ)
    → ProcessEnv
    → (nargo : String → Result (Unit {0})) → Parts
    → NonceStore
    → Result (Env × NonceStore)
create_server parse_int env nargo parts store =
    start env parts store (verify_toolchain env nargo (load_config parse_int env))

module _ {ℓ} {S : Type ℓ} (nats : Nats S) where
  -- The event bus, which is made in any case, after the attempt to connect it.
  unfoldable pub start_bus : ServiceConfig → S → World S
  start_bus config s =
      (caught (λ e. pure tt)
        ((connect nats (record {
          servers = config.nats_url ∷ [];
          name = some "verify-gateway";
          max_reconnect_attempts = none;
        })
            >> ensure_streams nats)
          (Bus.new s))).1

  -- `eventBus?.isConnected() ?? fallback`
  abbrev pub bus_connected : (fallback : Bool) → Option (World S) → Bool
  bus_connected fallback none = fallback
  bus_connected fallback (some w) = is_connected nats w

  -- GET /health: the status, and whether NATS is connected.
  unfoldable pub get_health : Option (World S) → String × Bool
  get_health bus =
      let nats_connected = bus_connected false bus in
      (if nats_connected then "healthy" else "degraded", nats_connected)

  -- GET /ready: the status code and the body's `ready`
  unfoldable pub get_ready : Option (World S) → ℕ × Bool
  get_ready bus = if bus_connected true bus then (200, true) else (503, false)

-- GET /live
abbrev pub get_live : Bool
get_live = true
