-- ===== src/Gateway/Types.antt =====
-- services/verify-gateway/src/types.ts and the results that its services return.
pub use zk_dpp_royalty_protocol.Schemas.{
  PublicInputs, ProofPackage, VerificationReceipt, EventPayload, VerificationEvent,
}
use zk_dpp_royalty_protocol.Common.{String, Bool}

-- `{ valid, error? }`; an absent error is the empty text, which the code treats alike
pub record ProofResult : Type 0 where
  pub valid : Bool
  pub error : String

pub data VerifyResult : Type 0 where
  success : VerificationReceipt → VerifyResult
  failure : String → VerifyResult
