-- ===== src/Gateway/Verifier/Laws.antt =====
-- When a proof package gets a receipt, and what a call does to the nonce store.
use zk_dpp_royalty_protocol.Common.{
  ℕ, ◌+◌, ◌≤◌, String, ◌≡◌, ◌≢◌, ◌↔◌, inl, inr, true, none, some, arith, ◌==◌, eq_iff,
  if◌then◌else◌, or_else, Option-cases,
}
use zk_dpp_royalty_protocol.Common.JsMap
use zk_dpp_royalty_protocol.Common.Results.{Result, ok, err, Result-cases}
use zk_dpp_royalty_protocol.Predicates.{PredicateDefinition, get_predicate}
use zk_dpp_royalty_protocol.Gateway.Types.{ProofPackage, VerificationReceipt, success}
use zk_dpp_royalty_protocol.Gateway.NonceStore.{NonceStore, new_entry}
use zk_dpp_royalty_protocol.Gateway.NonceStore.Laws.{
  IsStore, entry_of, check_and_store-answer, entry_of-check_and_store, check_and_store-IsStore,
  window_ms-check_and_store,
}
use zk_dpp_royalty_protocol.Gateway.Verifier.{
  Env, Readings, Payload, predicate_key, validate_proof_package, created_at, checks,
  verify_zk_proof, unsigned_receipt, payload_of, sign_receipt, create_receipt, issue, verify,
}

-- What the first three steps of `verify` establish.
pub record Passes (env : Env) (now : ℕ) (pkg : ProofPackage) (p : PredicateDefinition)
    : Type 0 where
  pub proof : ◌≢◌ {A = String} pkg.proof ""
  pub name : ◌≢◌ {A = String} pkg.predicate_id.name ""
  pub version : ◌≢◌ {A = String} pkg.predicate_id.version ""
  pub root : ◌≢◌ {A = String} pkg.public_inputs.commitment_root ""
  pub found : JsMap.get (predicate_key pkg) env.registry ≡ some p
  pub not_late : now ≤ created_at pkg + env.config.nonce_window_ms
  pub not_early : created_at pkg ≤ now + env.config.nonce_window_ms

module _ (env : Env) (now : ℕ) (pkg : ProofPackage) (p : PredicateDefinition) where
  pub checks-Passes : checks env now pkg ≡ ok p → Passes env now pkg p
  unfolding checks validate_proof_package get_predicate
  checks-Passes h = ground (
    arith,
    eq_iff pkg.proof "",
    eq_iff pkg.predicate_id.name "",
    eq_iff pkg.predicate_id.version "",
    eq_iff pkg.public_inputs.commitment_root "",
  )

  pub Passes-checks : Passes env now pkg p → checks env now pkg ≡ ok p
  unfolding checks validate_proof_package get_predicate
  Passes-checks h = ground (
    arith,
    eq_iff pkg.proof "",
    eq_iff pkg.predicate_id.name "",
    eq_iff pkg.predicate_id.version "",
    eq_iff pkg.public_inputs.commitment_root "",
  )

-- What a receipt rests on: the first three steps, a nonce that was not known, an accepted proof, and
-- a signature over the payload of the receipt's own fields, which are the package's.
pub record IsIssued (env : Env) (r : Readings) (s : NonceStore) (pkg : ProofPackage)
    (receipt : VerificationReceipt) : Type 0 where
  pub predicate : PredicateDefinition
  pub passes : Passes env r.now pkg predicate
  pub fresh : entry_of s pkg.nonce ≡ none
  pub accepted : (verify_zk_proof env predicate pkg).valid ≡ true
  pub sign : Payload → Result String
  pub key : env.private_key ≡ some sign
  pub signature : String
  pub signed : sign (payload_of (unsigned_receipt env r pkg)) ≡ ok signature
  pub receipt_is : record (unsigned_receipt env r pkg) { gateway_signature = signature } ≡ receipt

module _ (env : Env) (r : Readings) (pkg : ProofPackage) where
  pub create_receipt_sound :
      (receipt : VerificationReceipt)
      → create_receipt env r pkg ≡ ok receipt
      → (sign : Payload → Result String) × (env.private_key ≡ some sign)
        × (signature : String) × (sign (payload_of (unsigned_receipt env r pkg)) ≡ ok signature)
        × (record (unsigned_receipt env r pkg) { gateway_signature = signature } ≡ receipt)
  unfolding create_receipt sign_receipt
  create_receipt_sound receipt h = elim (Option-cases env.private_key) [
    | inl e ↦ absurd (ground (arith, e))
    | inr (sign, e) ↦ elim (Result-cases (sign (payload_of (unsigned_receipt env r pkg)))) [
      | inl (m, f) ↦ absurd (ground (arith, e, f))
      | inr (signature, f) ↦ (sign, e, signature, f, ground (arith, e, f))
    ]
  ]

  issue_sound :
      (p : PredicateDefinition) (receipt : VerificationReceipt)
      → issue env r p pkg ≡ success receipt
      → ((verify_zk_proof env p pkg).valid ≡ true) × (create_receipt env r pkg ≡ ok receipt)
  unfolding issue
  issue_sound p receipt h = ground arith

  module _ (s : NonceStore) where
    verify_sound :
        (receipt : VerificationReceipt)
        → (verify env r s pkg).0 ≡ success receipt
        → IsIssued env r s pkg receipt
    unfolding verify entry_of
    verify_sound receipt h = elim (Result-cases (checks env r.now pkg)) [
      | inl (m, e) ↦ absurd (ground (arith, e))
      | inr (p, e) ↦
          let stored = check_and_store-answer s r.stored_at pkg.nonce (predicate_key pkg) in
          let issued : issue env r p pkg ≡ success receipt = ground (arith, e) in
          let (accepted, created) = issue_sound p receipt issued in
          let (sign, key, signature, signed, receipt_is) = create_receipt_sound receipt created in
          record {
            predicate = p;
            passes = checks-Passes env r.now pkg p e;
            fresh = ground (arith, e, stored);
            accepted = accepted;
            sign = sign;
            key = key;
            signature = signature;
            signed = signed;
            receipt_is = receipt_is;
          }
    ]

    verify_complete :
        (receipt : VerificationReceipt)
        → IsIssued env r s pkg receipt
        → (verify env r s pkg).0 ≡ success receipt
    unfolding verify issue create_receipt sign_receipt entry_of
    verify_complete receipt h = ground (
      arith,
      Passes-checks env r.now pkg h.predicate h.passes,
      check_and_store-answer s r.stored_at pkg.nonce (predicate_key pkg),
    )

    -- A call answers with a receipt exactly if the receipt rests on the checks of all six steps.
    pub verify_iff :
        (receipt : VerificationReceipt)
        → ((verify env r s pkg).0 ≡ success receipt) ↔ IsIssued env r s pkg receipt
    verify_iff receipt = (verify_sound receipt, verify_complete receipt)

    -- Whatever the proof is worth, a call whose package passes the first three steps leaves its
    -- nonce known; every other call, and every other nonce, leaves the store as it is.
    pub entry_of-verify :
        (k : String)
        → entry_of (verify env r s pkg).1 k ≡ elim (checks env r.now pkg) [
          | err e ↦ entry_of s k
          | ok p ↦
              if pkg.nonce == k
              then some (or_else (entry_of s k) (new_entry r.stored_at k (predicate_key pkg)))
              else entry_of s k
        ]
    unfolding verify
    entry_of-verify k = ground (
      arith,
      eq_iff pkg.nonce k,
      entry_of-check_and_store s r.stored_at pkg.nonce (predicate_key pkg) k,
    )

    pub verify-IsStore : IsStore s → IsStore (verify env r s pkg).1
    unfolding verify
    verify-IsStore h =
        ground (arith, check_and_store-IsStore s r.stored_at pkg.nonce (predicate_key pkg) h)

    pub window_ms-verify : (verify env r s pkg).1.window_ms ≡ s.window_ms
    unfolding verify
    window_ms-verify =
        ground (arith, window_ms-check_and_store s r.stored_at pkg.nonce (predicate_key pkg))
