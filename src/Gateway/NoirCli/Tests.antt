-- ===== src/Gateway/NoirCli/Tests.antt =====
-- A host whose nargo accepts one proof only, two requests for one predicate, and instances.
use zk_dpp_royalty_protocol.Common.{
  ℕ, String, ◌≡◌, refl, false, true, Option, none, some, List, [], ◌∷◌, eqb, ◌==◌, if◌then◌else◌,
}
use zk_dpp_royalty_protocol.Common.JsMap
use zk_dpp_royalty_protocol.Common.Results.{Result, ok, err}
use zk_dpp_royalty_protocol.Predicates.{PredicateDefinition, legit_interest, lte, eur, ◌⧺◌}
use zk_dpp_royalty_protocol.Schemas.{json_text, json_other}
use zk_dpp_royalty_protocol.Gateway.Types.{ProofPackage}
use zk_dpp_royalty_protocol.Gateway.NoirCli.{
  Host, Disk, ready, resolve_circuit_dir, ensure_compiled, build_verifier_toml, bytes_to_toml_array,
  forbidden_hash, strip_hex_prefix, prepare, finish, verify_with_noir_cli,
}
use zk_dpp_royalty_protocol.Gateway.NoirCli.Race.{finish-prepare_race, noir_ignores_nonce}

abbrev zeros : List ℕ
zeros =
    0 ∷ 0 ∷ 0 ∷ 0 ∷ 0 ∷ 0 ∷ 0 ∷ 0 ∷ 0 ∷ 0 ∷ 0 ∷ 0 ∷ 0 ∷ 0 ∷ 0 ∷ 0 ∷ 0 ∷ 0 ∷ 0 ∷ 0 ∷ 0 ∷ 0 ∷ 0 ∷ 0
    ∷ 0 ∷ 0 ∷ 0 ∷ 0 ∷ 0 ∷ 0 ∷ 0 ∷ 0 ∷ []

abbrev accepts : Option (List ℕ) → Option String
accepts (some (b ∷ bs)) = if eqb b 1 then none else some "Failed to verify proof"
accepts _ = some "Failed to verify proof"

abbrev host : Host
host = record {
  exists = λ path. true;
  join = λ a b. a ⧺ "/" ⧺ b;
  dirname = λ path. "/";
  cwd = "/srv";
  hex_bytes = λ text. if text == "good" then 1 ∷ [] else if text == "bad" then 2 ∷ [] else zeros;
  decimal = λ n. "0";
  compile = λ dir. none;
  nargo_verify = λ dir proof toml. accepts proof;
}

abbrev carbon : PredicateDefinition
carbon = record {
  name = "CARBON_FOOTPRINT_LTE";
  version = "V1";
  description = "";
  circuit_path = "carbon_footprint_lte_v1";
  public_inputs = [];
  access_groups = legit_interest ∷ [];
  pricing = record { per_verification = 500; currency = eur };
  claim_type = "carbon_footprint";
  comparison = lte;
}

abbrev package_of : String → ProofPackage
package_of proof = record {
  predicate_id = record { name = "CARBON_FOOTPRINT_LTE"; version = "V1" };
  proof = proof;
  public_inputs = record {
    threshold = none;
    commitment_root = "c0";
    product_binding = "b0";
    requester_binding = "a0";
    timestamp = none;
    extra = [];
  };
  nonce = "n-1";
  generated_at = 0;
  supplier_id = none;
  requester_id = none;
}

abbrev clean : Disk
clean = record { proofs = []; tomls = [] }

abbrev dir : String
dir = "circuits/carbon_footprint_lte_v1"

is_ready : ready host (some "circuits") carbon ≡ ok dir
unfolding ready resolve_circuit_dir ensure_compiled
is_ready = refl

abbrev toml : Result String
toml = build_verifier_toml host carbon (package_of "good")

-- The text of the input file that the three packages share.
abbrev toml_text : String
toml_text = elim toml [ ok t ↦ t | err e ↦ e ]

builds : (proof : String) → build_verifier_toml host carbon (package_of proof) ≡ ok toml_text
unfolding build_verifier_toml bytes_to_toml_array strip_hex_prefix JsMap.get
builds proof = refl

-- Alone, the bad proof is refused.
refused_alone :
    (verify_with_noir_cli host (some "circuits") carbon (package_of "bad") clean).0
    ≡ record { valid = false; error = "Failed to verify proof" }
unfolding ready resolve_circuit_dir ensure_compiled build_verifier_toml bytes_to_toml_array
    strip_hex_prefix JsMap.get JsMap.set verify_with_noir_cli prepare finish
refused_alone = refl

-- With the good one prepared in between, the bad proof is accepted.
finish-prepare_race_example :
    let (started, disk') = prepare host (some "circuits") carbon (package_of "bad") clean in
    finish host started (prepare host (some "circuits") carbon (package_of "good") disk').1
    ≡ record { valid = true; error = "" }
finish-prepare_race_example =
    finish-prepare_race host (some "circuits") carbon (package_of "bad") (package_of "good") clean
      dir toml_text toml_text is_ready (builds "bad") (builds "good")

noir_ignores_nonce_example :
    verify_with_noir_cli host
      (some "circuits")
      carbon
      (record (package_of "good") { nonce = "n-9"; generated_at = 7 })
      clean
    ≡ verify_with_noir_cli host (some "circuits") carbon (package_of "good") clean
noir_ignores_nonce_example =
    noir_ignores_nonce host (some "circuits") carbon (package_of "good") clean "n-9" 7

-- `null` in `extra` is no forbidden list, and the other key is looked at.
null_hash :
    forbidden_hash (
      ("forbiddenListHash", json_other "null" false) ∷ ("forbidden_list_hash", json_text "ab") ∷ [])
    ≡ some "ab"
unfolding forbidden_hash JsMap.get
null_hash = refl
