-- ===== src/Schemas.antt =====
-- The values that the services exchange (packages/schemas/src/index.ts), as the schemas admit them:
-- every required field is there.
-- Numbers are not negative. Instants are milliseconds, also where the source keeps the ISO text of
-- one. Fields that no service reads
-- (signature, usage terms, product id, trace ids) are left out.
use zk_dpp_royalty_protocol.Common.{ℕ, String, Bool, Option, List}
use zk_dpp_royalty_protocol.Predicates.{PredicateId}

-- A value of parsed JSON: a text, or another value with the text that `String(…)` makes of it and
-- whether it counts as true (`null`, `false` and 0 do not).
pub data JsonValue : Type 0 where
  json_text : String → JsonValue
  json_other : (shown : String) (is_truthy : Bool) → JsonValue

pub record PublicInputs : Type 0 where
  pub threshold : Option ℕ
  pub commitment_root : String
  pub product_binding : String
  pub requester_binding : String
  pub timestamp : Option ℕ
  -- the entries of `extra`
  pub extra : List (String × JsonValue)

pub record ProofPackage : Type 0 where
  pub predicate_id : PredicateId
  pub proof : String
  pub public_inputs : PublicInputs
  pub nonce : String
  pub generated_at : ℕ
  -- `context?.supplierId` and `context?.requesterId`
  pub supplier_id : Option String
  pub requester_id : Option String

pub record VerificationReceipt : Type 0 where
  pub id : String
  pub predicate_id : PredicateId
  pub result : Bool
  pub commitment_root : String
  pub product_binding : String
  pub requester_binding : String
  pub supplier_id : Option String
  pub requester_id : Option String
  pub nonce : String
  pub verified_at : ℕ
  pub gateway_id : String
  pub gateway_signature : String

pub record EventPayload : Type 0 where
  pub receipt_id : String
  pub predicate_id : PredicateId
  pub supplier_id : String
  pub requester_id : String
  pub product_binding : Option String
  pub result : Bool
  pub commitment_root : Option String

pub record VerificationEvent : Type 0 where
  pub event_id : String
  pub event_type : String
  pub timestamp : ℕ
  pub payload : EventPayload
  pub gateway_id : Option String
