-- ===== src/Gateway/Startup/Tests.antt =====
-- A gateway started without a NATS server and without mock proofs, and the theorems applied to it.

use zk_dpp_royalty_protocol.Common.{
  ℕ, String, true, false, ◌≡◌, refl, none, some, Option, List, [], ◌∷◌, eqb, ◌==◌, if◌then◌else◌,
}
use zk_dpp_royalty_protocol.Common.JsMap
use zk_dpp_royalty_protocol.Common.Results.{Result, ok, err}
use zk_dpp_royalty_protocol.Predicates.{PredicateDefinition, public, lte, eur, get_predicate, ◌⧺◌}
use zk_dpp_royalty_protocol.Gateway.Types.{ProofPackage, VerificationReceipt}
use zk_dpp_royalty_protocol.Gateway.NoirCli.{
  Host, verify_with_noir_cli, prepare, finish, ready, resolve_circuit_dir, ensure_compiled,
  build_verifier_toml, bytes_to_toml_array, strip_hex_prefix, stamp_lines, forbidden_hash,
  forbidden_lines,
}
use zk_dpp_royalty_protocol.Gateway.NonceStore.{NonceStore, check_and_store, set_window_ms}
use zk_dpp_royalty_protocol.Gateway.Verifier.{
  Env, Readings, created_at, predicate_key, validate_proof_package, checks, verify_zk_proof,
  zk_backend_result, unsigned_receipt, issue, sign_receipt, create_receipt, verify,
}
use zk_dpp_royalty_protocol.Gateway.Startup.{
  ProcessEnv, Parts, ServiceConfig, load_config, verify_toolchain, verifier_of, create_server,
  start_bus, get_health, get_ready,
}
use zk_dpp_royalty_protocol.Gateway.Startup.Fallback.{IsVerified, started-accepts}
use zk_dpp_royalty_protocol.Gateway.Startup.Readiness.{unreachable-NotReady}
use zk_dpp_royalty_protocol.EventBus.Client.{Nats}

abbrev process_env : ProcessEnv
process_env name = if name == "NOIR_CIRCUITS_DIR" then some "circuits" else none

abbrev parse_int : String → Option ℕ
parse_int s = if s == "300000" then some 300_000 else none

abbrev nargo : String → Result (Unit {0})
nargo path = ok tt

abbrev carbon : PredicateDefinition
carbon = record {
  name = "CARBON";
  version = "V1";
  description = "";
  circuit_path = "carbon_v1";
  public_inputs = [];
  access_groups = public ∷ [];
  pricing = record { per_verification = 500; currency = eur };
  claim_type = "carbon";
  comparison = lte;
}

abbrev zeros : List ℕ
zeros =
    0 ∷ 0 ∷ 0 ∷ 0 ∷ 0 ∷ 0 ∷ 0 ∷ 0 ∷ 0 ∷ 0 ∷ 0 ∷ 0 ∷ 0 ∷ 0 ∷ 0 ∷ 0 ∷ 0 ∷ 0 ∷ 0 ∷ 0 ∷ 0 ∷ 0 ∷ 0 ∷ 0
    ∷ 0 ∷ 0 ∷ 0 ∷ 0 ∷ 0 ∷ 0 ∷ 0 ∷ 0 ∷ []

-- nargo accepts the proof of one byte 1 only.
abbrev nargo_verify : Option (List ℕ) → Option String
nargo_verify (some (b ∷ bs)) = if eqb b 1 then none else some "Failed to verify proof"
nargo_verify _ = some "Failed to verify proof"

abbrev host : Host
host = record {
  exists = λ path. true;
  join = λ a b. a ⧺ "/" ⧺ b;
  dirname = λ path. "/";
  cwd = "/srv";
  hex_bytes = λ text. if text == "01112233445566778899aabbccddeeff" then 1 ∷ [] else zeros;
  decimal = λ n. "0";
  compile = λ dir. none;
  nargo_verify = λ dir proof toml. nargo_verify proof;
}

abbrev parts : Parts
parts = record {
  registry = ("CARBON_V1", carbon) ∷ [];
  gateway_id = "gateway-1";
  host = host;
  disk = record { proofs = []; tomls = [] };
  private_key = some (λ payload. ok "signature");
}

abbrev pkg : ProofPackage
pkg = record {
  predicate_id = record { name = "CARBON"; version = "V1" };
  proof = "01112233445566778899aabbccddeeff";
  public_inputs = record {
    threshold = none;
    commitment_root = "c0";
    product_binding = "b0";
    requester_binding = "a0";
    timestamp = none;
    extra = [];
  };
  nonce = "n-1";
  generated_at = 1_700_000_000_000;
  supplier_id = none;
  requester_id = none;
}

abbrev readings : Readings
readings = record {
  now = 1_700_000_000_000;
  stored_at = 1_700_000_000_000;
  receipt_id = "r-1";
  verified_at = 1_700_000_000_000;
}

abbrev empty : NonceStore
empty = record { nonces = []; window_ms = 60_000 }

abbrev config : ServiceConfig
config = load_config parse_int process_env

abbrev verifier : Env
verifier = verifier_of process_env parts config 300_000

abbrev receipt : VerificationReceipt
receipt = record (unsigned_receipt verifier readings pkg) { gateway_signature = "signature" }

started-accepts_example :
    IsVerified parse_int process_env nargo parts empty (some "circuits") pkg
    × (nargo (load_config parse_int process_env).nargo_bin ≡ ok tt)
    × ((set_window_ms empty 300_000).window_ms ≡ verifier.config.nonce_window_ms)
unfolding create_server load_config verify_toolchain verifier_of set_window_ms verify checks
    validate_proof_package predicate_key get_predicate created_at check_and_store issue
    verify_zk_proof zk_backend_result create_receipt sign_receipt unsigned_receipt JsMap.get
    JsMap.set verify_with_noir_cli prepare finish ready resolve_circuit_dir ensure_compiled
    build_verifier_toml bytes_to_toml_array strip_hex_prefix stamp_lines forbidden_hash
    forbidden_lines
started-accepts_example =
    started-accepts parse_int process_env nargo parts empty verifier (set_window_ms empty 300_000)
      empty readings pkg receipt refl refl refl

-- No server answers.
abbrev silent : Nats (Unit {0})
silent = record {
  connect = λ servers name attempts s. (err "CONNECTION_REFUSED", s);
  jetstream_manager = λ s. (ok tt, s);
  stream_info = λ name s. (ok tt, s);
  stream_add = λ config s. (ok tt, s);
  publish = λ subject payload s. (ok tt, s);
  consumer_info = λ stream consumer s. (ok tt, s);
  consumer_add = λ stream config s. (ok tt, s);
  consume = λ stream consumer s. (ok tt, s);
  drain = λ s. (ok tt, s);
  is_closed = λ s. true;
}

unreachable-NotReady_example :
    (get_health silent (some (start_bus silent config tt)) ≡ ("degraded", false))
    × (get_ready silent (some (start_bus silent config tt)) ≡ (503, false))
unreachable-NotReady_example = unreachable-NotReady silent config tt tt "CONNECTION_REFUSED" refl
