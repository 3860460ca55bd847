-- ===== src/Dpp/Types.antt =====
-- services/dpp-builder/src/types.ts. Instants are milliseconds. A product's description and metadata
-- are kept as the texts that the database stores.
use zk_dpp_royalty_protocol.Common.{ℕ, String, Bool, Option, List}

pub record Product : Type 0 where
  pub id : String
  pub sku : String
  pub name : String
  pub description : Option String
  pub category : String
  pub metadata : String
  pub created_at : ℕ
  pub updated_at : ℕ

pub record ProductSupplierLink : Type 0 where
  pub id : String
  pub product_id : String
  pub supplier_id : String
  pub commitment_root : String
  pub supplier_public_key : String
  pub linked_at : ℕ
  pub active : Bool

pub record VerifiedPredicate : Type 0 where
  pub id : String
  pub product_id : String
  pub supplier_id : String
  pub predicate_id : String
  pub receipt_id : String
  pub result : Bool
  pub verified_at : ℕ
  pub expires_at : Option ℕ

pub data AccessLevel : Type 0 where
  public legit_interest authority : AccessLevel

pub record ProductBasicInfo : Type 0 where
  pub id : String
  pub sku : String
  pub name : String
  pub category : String

pub record VerifiedPredicateInfo : Type 0 where
  pub predicate_id : String
  pub predicate_name : String
  pub result : Bool
  pub verified_at : ℕ

pub record SupplierInfo : Type 0 where
  pub id : String
  pub commitment_root : String
  pub public_key : String
  pub linked_at : ℕ

-- The details of an audit entry.
pub data Details : Type 0 where
  predicate_verified : (predicate_id receipt_id supplier_id : String) (result : Bool) → Details
  supplier_linked : (supplier_id commitment_root : String) → Details

-- The type of the event is that of its details.
pub record AuditEntry : Type 0 where
  pub timestamp : ℕ
  pub details : Details

pub data DppView : Type 0 where
  view_public : (product : ProductBasicInfo) → DppView
  view_legit_interest :
      (product : ProductBasicInfo) (verified_predicates : List VerifiedPredicateInfo)
      (supplier_count : ℕ)
      → DppView
  view_authority :
      (product : ProductBasicInfo) (verified_predicates : List VerifiedPredicateInfo)
      (supplier_count : ℕ) (suppliers : List SupplierInfo) (audit_trail : List AuditEntry)
      → DppView

pub record CreateProductRequest : Type 0 where
  pub sku : String
  pub name : String
  pub description : Option String
  pub category : String
  pub metadata : Option String

pub record LinkSupplierRequest : Type 0 where
  pub supplier_id : String
  pub commitment_root : String
  pub supplier_public_key : String

pub record RecordVerificationRequest : Type 0 where
  pub predicate_id : String
  pub receipt_id : String
  pub result : Bool
  pub supplier_id : String
  pub expires_at : Option ℕ
