-- ===== src/Gateway/Tests.antt =====
-- Runs of the gateway, and instances of its theorems.
use zk_dpp_royalty_protocol.Common.{
  ℕ, ◌+◌, ◌≡◌, ◌≢◌, refl, true, false, none, some, [], ◌∷◌, arith, In, In-nil, String,
}
use zk_dpp_royalty_protocol.Common.JsMap
use zk_dpp_royalty_protocol.Common.Results.{ok}
use zk_dpp_royalty_protocol.Predicates.{
  Registry, PredicateDefinition, legit_interest, authority, lte, eur, get_predicate, ◌⧺◌,
}
use zk_dpp_royalty_protocol.Gateway.Types.{
  ProofPackage, VerificationReceipt, VerificationEvent, success,
}
use zk_dpp_royalty_protocol.Gateway.NonceStore.{
  NonceStore, new_entry, check_and_store, cleanup, size,
}
use zk_dpp_royalty_protocol.Gateway.NonceStore.Laws.{entry_of, entry_of-cleanup, size-cleanup}
use zk_dpp_royalty_protocol.Gateway.Verifier.{
  Env, Readings, mock, created_at, predicate_key, validate_proof_package, checks, verify_zk_proof,
  unsigned_receipt, issue, sign_receipt, create_receipt, verify,
}
use zk_dpp_royalty_protocol.Gateway.Verifier.Laws.{IsIssued, verify_iff, entry_of-verify}
use zk_dpp_royalty_protocol.Gateway.Verifier.Replay.{
  timer, run, no_replay, replay_after_cleanup, renonced_gets_receipt,
}
use zk_dpp_royalty_protocol.Gateway.Discovery.{
  PredicateInfo, Serializer, body, refused, get_predicates, get_predicate_info,
  get_predicate_info-empty,
}
use zk_dpp_royalty_protocol.Gateway.Verify.{Route, event_of, post_verify}
use zk_dpp_royalty_protocol.Gateway.Verify.Laws.{post_verify-bus}

abbrev carbon : PredicateDefinition
carbon = record {
  name = "CARBON_FOOTPRINT_LTE";
  version = "V1";
  description = "Carbon footprint at most a threshold";
  circuit_path = "carbon_footprint_lte_v1";
  public_inputs = "threshold" ∷ "commitment_root" ∷ [];
  access_groups = legit_interest ∷ authority ∷ [];
  pricing = record { per_verification = 500; currency = eur };
  claim_type = "carbon_footprint";
  comparison = lte;
}

abbrev registry : Registry
registry = ("CARBON_FOOTPRINT_LTE_V1", carbon) ∷ []

abbrev env : Env
env = record {
  registry = registry;
  config = record { gateway_id = "gateway-1"; zk_backend = mock; nonce_window_ms = 300000 };
  allow_mock = true;
  noir = λ p pkg. record { valid = false; error = "unused" };
  private_key = some (λ payload. ok "signature");
}

-- generated two minutes ahead of the gateway's clock
abbrev package_ahead : ProofPackage
package_ahead = record {
  predicate_id = record { name = "CARBON_FOOTPRINT_LTE"; version = "V1" };
  proof = "00112233445566778899aabbccddeeff";
  public_inputs = record {
    threshold = some 100;
    commitment_root = "c0";
    product_binding = "b0";
    requester_binding = "a0";
    timestamp = none;
    extra = [];
  };
  nonce = "n-1";
  generated_at = 1_700_000_120_000;
  supplier_id = some "supplier-1";
  requester_id = none;
}

abbrev package_now : ProofPackage
package_now = record package_ahead { generated_at = 1_700_000_000_000 }

abbrev readings : ℕ → Readings
readings t = record { now = t; stored_at = t; receipt_id = "r-1"; verified_at = t }

abbrev start : ℕ
start = 1_700_000_000_000

abbrev empty_store : NonceStore
empty_store = record { nonces = []; window_ms = 300000 }

abbrev receipt_of : ProofPackage → ℕ → VerificationReceipt
receipt_of pkg t = record (unsigned_receipt env (readings t) pkg) {
  gateway_signature = "signature";
}

checks_now : checks env start package_now ≡ ok carbon
unfolding checks validate_proof_package predicate_key created_at get_predicate JsMap.get
checks_now = refl

first_call :
    (verify env (readings start) empty_store package_ahead).0
    ≡ success (receipt_of package_ahead start)
unfolding verify checks validate_proof_package predicate_key created_at get_predicate JsMap.get
    check_and_store verify_zk_proof create_receipt sign_receipt issue
first_call = refl

-- The receipt's checks, read off a call that succeeded.
verify_iff_example :
    IsIssued env (readings start) empty_store package_ahead (receipt_of package_ahead start)
verify_iff_example =
    (verify_iff env (readings start) package_ahead empty_store (receipt_of package_ahead start)).0
      first_call

entry_of-verify_example :
    entry_of (verify env (readings start) empty_store package_now).1 "n-1"
    ≡ some (new_entry start "n-1" "CARBON_FOOTPRINT_LTE_V1")
unfolding checks validate_proof_package predicate_key created_at get_predicate JsMap.get entry_of
entry_of-verify_example = entry_of-verify env (readings start) package_now empty_store "n-1"

no_replay_example :
    (verify env
      (readings (start + 400000))
      (run env
        (verify env (readings start) empty_store package_now).1
        (timer (start + 300001) ∷ []))
      package_now).0
    ≢ success (receipt_of package_now (start + 400000))
unfolding created_at entry_of JsMap.get
no_replay_example =
    no_replay env (readings start) empty_store package_now carbon (timer (start + 300001) ∷ [])
      (readings (start + 400000)) package_now (receipt_of package_now (start + 400000)) refl
      checks_now refl (omega arith) refl (omega arith)

replay_after_cleanup_example :
    (verify env
      (readings (start + 400000))
      (cleanup (verify env (readings start) empty_store package_ahead).1 (start + 300001)).1
      package_ahead).0
    ≡ success (receipt_of package_ahead (start + 400000))
unfolding created_at create_receipt sign_receipt
replay_after_cleanup_example =
    replay_after_cleanup env (readings start) empty_store package_ahead
      (receipt_of package_ahead start) (receipt_of package_ahead (start + 400000)) (start + 300001)
      (readings (start + 400000)) tt refl first_call (omega arith) (omega arith) (omega arith)
      (omega arith) refl

renonced_gets_receipt_example :
    (verify env
      (readings (start + 400000))
      empty_store
      (record package_ahead { nonce = "n-2"; generated_at = start + 400000 })).0
    ≡ success (
        receipt_of
          (record package_ahead { nonce = "n-2"; generated_at = start + 400000 })
          (start + 400000))
unfolding created_at create_receipt sign_receipt entry_of JsMap.get verify_zk_proof
renonced_gets_receipt_example =
    renonced_gets_receipt env (readings start) empty_store package_ahead
      (receipt_of package_ahead start)
      (receipt_of (record package_ahead { nonce = "n-2"; generated_at = start + 400000 })
        (start + 400000))
      empty_store (readings (start + 400000)) "n-2" (start + 400000) first_call (λ p. refl) refl
      (omega arith) (omega arith) refl

known_store : NonceStore
known_store = record empty_store {
  nonces = ("n-0", new_entry 5 "n-0" "K") ∷ ("n-1", new_entry 400000 "n-1" "K") ∷ [];
}

entry_of-cleanup_example :
    entry_of (cleanup known_store 400000).1 "n-1" ≡ some (new_entry 400000 "n-1" "K")
unfolding entry_of JsMap.get known_store
entry_of-cleanup_example = entry_of-cleanup known_store 400000 "n-1" (refl, (refl, tt))

size-cleanup_example :
    (cleanup known_store 400000).0 + size (cleanup known_store 400000).1 ≡ size known_store
size-cleanup_example = size-cleanup known_store 400000

abbrev route : Route
route = record { env = env; invalid = λ pkg. none; event_bus = some (λ event. none) }

abbrev event : VerificationEvent
event = event_of "e-1" start package_ahead (receipt_of package_ahead start)

post_verify-bus_example :
    let other =
      post_verify
        (record route { event_bus = none })
        (readings start)
        "e-1"
        start
        empty_store
        package_ahead in
    let this = post_verify route (readings start) "e-1" start empty_store package_ahead in
    (other.response ≡ this.response) × (other.store ≡ this.store)
post_verify-bus_example =
    post_verify-bus route (readings start) "e-1" start empty_store package_ahead none

-- Keeps none of the properties, as a schema without any says.
abbrev write : Serializer
write names info = []

get_predicate_info-empty_example :
    ((info : PredicateInfo)
      → In info (get_predicates registry)
      → get_predicate_info write registry info.id ≡ body 200 [])
    × ((id : String)
        → ((info : PredicateInfo) → In info (get_predicates registry) → ◌≢◌ {A = String} info.id id)
        → get_predicate_info write registry id ≡ refused 404 ("Predicate not found: " ⧺ id))
unfolding JsMap.get
get_predicate_info-empty_example =
    get_predicate_info-empty write registry (λ names info k v m. absurd (In-nil m)) (refl, tt)
