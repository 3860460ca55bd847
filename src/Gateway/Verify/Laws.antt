-- ===== src/Gateway/Verify/Laws.antt =====
-- What POST /verify answers and publishes.
use zk_dpp_royalty_protocol.Common.{ℕ, String, ◌≡◌, Option, none, some, arith}
use zk_dpp_royalty_protocol.Gateway.Types.{
  ProofPackage, VerificationReceipt, VerificationEvent, success,
}
use zk_dpp_royalty_protocol.Gateway.NonceStore.{NonceStore}
use zk_dpp_royalty_protocol.Gateway.Verifier.{Readings}
use zk_dpp_royalty_protocol.Gateway.Verifier.Laws.{IsIssued}
use zk_dpp_royalty_protocol.Gateway.Verify.{Route, event_of, post_verify}

-- Why an event was published.
pub record IsPublished (route : Route) (r : Readings) (event_id : String) (timestamp : ℕ)
    (s : NonceStore) (pkg : ProofPackage) (event : VerificationEvent) : Type 0 where
  pub receipt : VerificationReceipt
  pub issued : IsIssued route.env r s pkg receipt
  pub event_is : event ≡ event_of event_id timestamp pkg receipt
  pub bus : VerificationEvent → Option String
  pub has_bus : route.event_bus ≡ some bus
  pub taken : bus event ≡ none
  pub valid : route.invalid pkg ≡ none
  pub answered :
      (post_verify route r event_id timestamp s pkg).response
      ≡ record { code = 200; body = success receipt }

module _ (route : Route) (r : Readings) (event_id : String) (timestamp : ℕ) (s : NonceStore)
    (pkg : ProofPackage) where
  -- Neither the bus nor its errors change the response or the nonce store.
  pub post_verify-bus :
      (bus : Option (VerificationEvent → Option String))
      → let other = post_verify (record route { event_bus = bus }) r event_id timestamp s pkg in
        let this = post_verify route r event_id timestamp s pkg in
        (other.response ≡ this.response) × (other.store ≡ this.store)
  unfolding post_verify
  post_verify-bus bus = ground arith
