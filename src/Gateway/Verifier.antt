-- ===== src/Gateway/Verifier.antt =====
-- services/verify-gateway/src/services/verifier.ts. The registry, the configuration, the Noir
-- backend and the signer are in `Env`; what one call reads from outside is in `Readings`.
-- Everything up to the nonce check runs without an `await`, so calls cannot interleave there, and
-- the nonce store is not touched afterwards.
pub mod Laws
pub mod Replay
use Prim.Native.String
use zk_dpp_royalty_protocol.Common.{
  ℕ, ◌+◌, ◌-◌, ◌*◌, ◌/◌, ◌%◌, String, Bool, true, false, not, ◌||◌, Option, none, some, ltb, leb,
  eqb, truthy, if◌then◌else◌,
}
use zk_dpp_royalty_protocol.Common.Results.{Result, ok, err, ◌>>=◌, ◌>>◌, reject_if}
use zk_dpp_royalty_protocol.Predicates.{
  Registry, PredicateDefinition, PredicateId, ◌⧺◌, text, get_predicate,
}
use zk_dpp_royalty_protocol.Gateway.Types.{
  ProofPackage, ProofResult, VerificationReceipt, VerifyResult, success, failure,
}
use zk_dpp_royalty_protocol.Gateway.NonceStore.{NonceStore, check_and_store}

pub data Backend : Type 0 where
  noir_cli mock other : Backend

pub record Config : Type 0 where
  pub gateway_id : String
  pub zk_backend : Backend
  pub nonce_window_ms : ℕ

-- The payload that `signReceipt` hands to the signer.
pub record Payload : Type 0 where
  pub rid : String
  pub pid : String
  pub root : String
  pub result : Bool
  pub iat : ℕ

pub record Env : Type 0 where
  pub registry : Registry
  pub config : Config
  -- process.env.ALLOW_MOCK_PROOFS === 'true'
  pub allow_mock : Bool
  -- `verifyWithNoirCli`
  pub noir : PredicateDefinition → ProofPackage → ProofResult
  -- `none` while the key is not initialised; `SignJWT` may throw
  pub private_key : Option (Payload → Result String)

pub record Readings : Type 0 where
  pub now : ℕ
  pub stored_at : ℕ
  pub receipt_id : String
  pub verified_at : ℕ

unfoldable pub predicate_key : ProofPackage → String
predicate_key pkg = pkg.predicate_id.name ⧺ "_" ⧺ pkg.predicate_id.version

unfoldable pub validate_proof_package : ProofPackage → Result (Unit {0})
validate_proof_package pkg = do
  reject_if (not (truthy pkg.proof)) "Missing proof data"
  reject_if (not (truthy pkg.predicate_id.name) || not (truthy pkg.predicate_id.version))
      "Missing predicateId"
  reject_if (not (truthy pkg.public_inputs.commitment_root))
      "Missing commitmentRoot in publicInputs"

-- Seconds are turned into milliseconds.
unfoldable pub created_at : ProofPackage → ℕ
created_at pkg =
    if ltb pkg.generated_at 1_000_000_000_000 then pkg.generated_at * 1000 else pkg.generated_at

-- `Math.abs(a - b)`
abbrev pub distance : ℕ → ℕ → ℕ
distance a b = if leb a b then b - a else a - b

find_predicate : Registry → String → Result PredicateDefinition
find_predicate registry key = elim (get_predicate registry (text key)) [
  | none ↦ err ("Unknown predicate: " ⧺ key)
  | some predicate ↦ ok predicate
]

-- Steps 1 to 3 of `verify`.
unfoldable pub checks : Env → (now : ℕ) → ProofPackage → Result PredicateDefinition
unfolding find_predicate
checks env now pkg = do
  validate_proof_package pkg
  predicate ← find_predicate env.registry (predicate_key pkg)
  reject_if (ltb env.config.nonce_window_ms (distance now (created_at pkg)))
      "Proof package timestamp outside valid window"
  ok predicate

abbrev rejected : String → ProofResult
rejected error = record { valid = false; error = error }

unfoldable pub zk_backend_result : Env → Backend → PredicateDefinition → ProofPackage → ProofResult
zk_backend_result env mock predicate pkg =
    if not env.allow_mock
    then rejected "Mock backend disabled. Set ALLOW_MOCK_PROOFS=true to enable."
    else (record { valid = true; error = "" })
zk_backend_result env noir_cli predicate pkg = env.noir predicate pkg
zk_backend_result env other predicate pkg = rejected "Unsupported ZK backend configuration"

-- The proof is hexadecimal text, so its length is its length in bytes.
unfoldable pub verify_zk_proof : Env → PredicateDefinition → ProofPackage → ProofResult
unfolding zk_backend_result
verify_zk_proof env predicate pkg =
    if not (truthy pkg.proof)
      || ltb (String.len pkg.proof) 32
      || not (eqb (String.len pkg.proof % 2) 0)
    then rejected "Invalid proof data length"
    else zk_backend_result env env.config.zk_backend predicate pkg

-- `create_receipt` before the signature is filled in
unfoldable pub unsigned_receipt : Env → Readings → ProofPackage → VerificationReceipt
unsigned_receipt env r pkg = record {
  id = r.receipt_id;
  predicate_id = pkg.predicate_id;
  result = true;
  commitment_root = pkg.public_inputs.commitment_root;
  product_binding = pkg.public_inputs.product_binding;
  requester_binding = pkg.public_inputs.requester_binding;
  supplier_id = pkg.supplier_id;
  requester_id = pkg.requester_id;
  nonce = pkg.nonce;
  verified_at = r.verified_at;
  gateway_id = env.config.gateway_id;
  gateway_signature = "";
}

unfoldable pub payload_of : VerificationReceipt → Payload
payload_of receipt = record {
  rid = receipt.id;
  pid = receipt.predicate_id.name ⧺ "@" ⧺ receipt.predicate_id.version;
  root = receipt.commitment_root;
  result = receipt.result;
  iat = receipt.verified_at / 1000;
}

unfoldable pub sign_receipt : Env → VerificationReceipt → Result String
sign_receipt env receipt = elim env.private_key [
  | none ↦ err "Signing key not initialized"
  | some sign ↦ sign (payload_of receipt)
]

unfoldable pub create_receipt : Env → Readings → ProofPackage → Result VerificationReceipt
create_receipt env r pkg = do
  signature ← sign_receipt env (unsigned_receipt env r pkg)
  ok (record (unsigned_receipt env r pkg) { gateway_signature = signature })

-- What the `catch` makes of a thrown error.
abbrev catch : Result VerificationReceipt → VerifyResult
catch (ok receipt) = success receipt
catch (err e) = failure "Internal verification error"

-- Steps 5 and 6 of `verify`.
unfoldable pub issue : Env → Readings → PredicateDefinition → ProofPackage → VerifyResult
issue env r predicate pkg =
    let result = verify_zk_proof env predicate pkg in
    if not result.valid
    then failure (if truthy result.error then result.error else "ZK proof verification failed")
    else catch (create_receipt env r pkg)

unfoldable pub verify : Env → Readings → NonceStore → ProofPackage → VerifyResult × NonceStore
verify env r s pkg = elim (checks env r.now pkg) [
  | err e ↦ (failure e, s)
  | ok predicate ↦
      let (fresh, s') = check_and_store s r.stored_at pkg.nonce (predicate_key pkg) in
      (
        if fresh then issue env r predicate pkg else failure "Nonce already used (replay detected)",
        s',
      )
]
