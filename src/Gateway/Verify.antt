-- ===== src/Gateway/Verify.antt =====
-- services/verify-gateway/src/routes/verify.ts: POST /verify. The schema validator and the message
-- bus come from outside; `published` are the events that the bus took.
pub mod Laws
use zk_dpp_royalty_protocol.Common.{
  ℕ, String, ◌≡◌, ◌≢◌, refl, ap, ◌⊎◌, inl, inr, true, Option, none, some, List, [], ◌∷◌, arith,
  or_text, Option-cases,
}
use zk_dpp_royalty_protocol.Predicates.{◌⧺◌}
use zk_dpp_royalty_protocol.Gateway.Types.{
  ProofPackage, VerificationReceipt, VerificationEvent, VerifyResult, success, failure,
}
use zk_dpp_royalty_protocol.Gateway.NonceStore.{NonceStore}
use zk_dpp_royalty_protocol.Gateway.Verifier.{Env, Readings, verify}

pub record Response : Type 0 where
  pub code : ℕ
  pub body : VerifyResult

pub record Route : Type 0 where
  pub env : Env
  -- `validateProofPackage`: `some` holds the joined messages of its errors
  pub invalid : ProofPackage → Option String
  -- the event bus, if the service has one: `some` is the message of an error thrown by `publish`
  pub event_bus : Option (VerificationEvent → Option String)

pub record Outcome : Type 0 where
  pub response : Response
  pub store : NonceStore
  pub published : List VerificationEvent

unfoldable pub event_of :
    (event_id : String) (timestamp : ℕ) → ProofPackage → VerificationReceipt → VerificationEvent
event_of event_id timestamp pkg receipt = record {
  event_id = event_id;
  event_type = "proofs.verified";
  timestamp = timestamp;
  payload = record {
    receipt_id = receipt.id;
    predicate_id = pkg.predicate_id;
    supplier_id = or_text pkg.supplier_id "unknown";
    requester_id = or_text pkg.requester_id "unknown";
    product_binding = some pkg.public_inputs.product_binding;
    result = true;
    commitment_root = some pkg.public_inputs.commitment_root;
  };
  gateway_id = some receipt.gateway_id;
}

-- `if (eventBus && result.receipt)`: an error of `publish` is logged and dropped
publish : Option (VerificationEvent → Option String) → VerificationEvent → List VerificationEvent
publish none event = []
publish (some bus) event = elim (bus event) [ none ↦ event ∷ [] | some message ↦ [] ]

respond :
    Route → (event_id : String) (timestamp : ℕ) → ProofPackage → VerifyResult × NonceStore → Outcome
unfolding publish
respond route event_id timestamp pkg (failure error, s) = record {
  response = record { code = 400; body = failure error };
  store = s;
  published = [];
}
respond route event_id timestamp pkg (success receipt, s) = record {
  response = record { code = 200; body = success receipt };
  store = s;
  published = publish route.event_bus (event_of event_id timestamp pkg receipt);
}

unfoldable pub post_verify :
    Route → Readings → (event_id : String) (timestamp : ℕ) → NonceStore → ProofPackage → Outcome
unfolding respond
post_verify route r event_id timestamp s pkg = elim (route.invalid pkg) [
  | some messages ↦ record {
    response = record {
      code = 400;
      body = failure ("Invalid proof package: " ⧺ or_text (some messages) "unknown error");
    };
    store = s;
    published = [];
  }
  | none ↦ respond route event_id timestamp pkg (verify route.env r s pkg)
]
