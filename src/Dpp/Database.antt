-- ===== src/Dpp/Database.antt =====
-- services/dpp-builder/src/db/index.ts: the three tables, with the keys, UNIQUE columns and
-- references of infra/docker/init-db, and the subscriber of services/dpp-builder/src/index.ts that
-- fills one of them. ORDER BY and the digest of PostgreSQL are a record.
use zk_dpp_royalty_protocol.Common.{
  ℕ, String, Bool, true, false, ◌&&◌, ◌||◌, Option, none, some, List, [], ◌∷◌, ◌++◌, ltb, ◌==◌,
  truthy, or_else, filter, any, map, if◌then◌else◌, is_some,
}
use zk_dpp_royalty_protocol.Common.Results.{Result, ok, err}
use zk_dpp_royalty_protocol.Predicates.{canonical_id, ◌⧺◌}
use zk_dpp_royalty_protocol.Schemas.{VerificationEvent}
use zk_dpp_royalty_protocol.Dpp.Types.{
  Product, ProductSupplierLink, VerifiedPredicate, CreateProductRequest, LinkSupplierRequest,
  RecordVerificationRequest,
}

pub record Tables : Type 0 where
  pub products : List Product
  pub links : List ProductSupplierLink
  pub verified : List VerifiedPredicate

pub record Postgres : Type 0 where
  -- ORDER BY linked_at DESC and ORDER BY verified_at DESC
  pub by_linked_at : List ProductSupplierLink → List ProductSupplierLink
  pub by_verified_at : List VerifiedPredicate → List VerifiedPredicate
  -- encode(digest(…, 'sha256'), 'hex')
  pub sha256_hex : String → String
  -- whether a text can be a value of a column of type UUID; a query with another text throws
  pub is_uuid : String → Bool

-- rows[0] of a SELECT on the products
abbrev first_product : (Product → Bool) → List Product → Option Product
first_product p [] = none
first_product p (x ∷ xs) = if p x then some x else first_product p xs

unfoldable pub get_product : String → Tables → Option Product
get_product id db = first_product (λ p. p.id == id) db.products

unfoldable pub get_product_by_sku : String → Tables → Option Product
get_product_by_sku sku db = first_product (λ p. p.sku == sku) db.products

unfoldable pub get_product_by_binding : Postgres → String → Tables → Option Product
get_product_by_binding pg binding db =
    first_product (λ p. pg.sha256_hex ("product:" ⧺ p.id) == binding) db.products

-- `description || null`
abbrev text_or_null : Option String → Option String
text_or_null none = none
text_or_null (some s) = if truthy s then some s else none

abbrev new_product : (id : String) (now : ℕ) → CreateProductRequest → Product
new_product id now input = record {
  id = id;
  sku = input.sku;
  name = input.name;
  description = text_or_null input.description;
  category = input.category;
  metadata = or_else input.metadata "{}";
  created_at = now;
  updated_at = now;
}

unfoldable pub create_product :
    (id : String) (now : ℕ) → CreateProductRequest → Tables → Result Product × Tables
create_product id now input db =
    if any (λ p. p.id == id || p.sku == input.sku) db.products
    then (err "duplicate key value violates unique constraint", db)
    else (
      ok (new_product id now input),
      record db { products = db.products ++ new_product id now input ∷ [] },
    )

-- The inserts below refer to a product: PostgreSQL refuses them if there is none.
abbrev new_link : (id : String) (now : ℕ) → String → LinkSupplierRequest → ProductSupplierLink
new_link id now product_id input = record {
  id = id;
  product_id = product_id;
  supplier_id = input.supplier_id;
  commitment_root = input.commitment_root;
  supplier_public_key = input.supplier_public_key;
  linked_at = now;
  active = true;
}

unfoldable pub link_supplier :
    (id : String) (now : ℕ)
    → String
    → LinkSupplierRequest
    → Tables
    → Result ProductSupplierLink × Tables
link_supplier id now product_id input db =
    if is_some (get_product product_id db)
    then (
      ok (new_link id now product_id input),
      record db { links = db.links ++ new_link id now product_id input ∷ [] },
    )
    else (err "insert violates foreign key constraint", db)

unfoldable pub get_supplier_links : Postgres → String → Tables → List ProductSupplierLink
get_supplier_links pg product_id db =
    pg.by_linked_at (filter (λ l. l.product_id == product_id && l.active) db.links)

abbrev deactivate_row : String → ProductSupplierLink → ProductSupplierLink
deactivate_row id l = if l.id == id then record l { active = false } else l

pub deactivate_supplier_link : String → Tables → Bool × Tables
deactivate_supplier_link id db =
    (any (λ l. l.id == id) db.links, record db { links = map (deactivate_row id) db.links })

abbrev pub new_verification :
    (id : String) (now : ℕ) → String → RecordVerificationRequest → VerifiedPredicate
new_verification id now product_id input = record {
  id = id;
  product_id = product_id;
  supplier_id = input.supplier_id;
  predicate_id = input.predicate_id;
  receipt_id = input.receipt_id;
  result = input.result;
  verified_at = now;
  expires_at = input.expires_at;
}

unfoldable pub record_verification :
    (id : String) (now : ℕ)
    → String
    → RecordVerificationRequest
    → Tables
    → Result VerifiedPredicate × Tables
record_verification id now product_id input db =
    if is_some (get_product product_id db)
    then (
      ok (new_verification id now product_id input),
      record db { verified = db.verified ++ new_verification id now product_id input ∷ [] },
    )
    else (err "insert violates foreign key constraint", db)

-- `expires_at IS NULL OR expires_at > now`
abbrev pub is_current : (now : ℕ) → Option ℕ → Bool
is_current now none = true
is_current now (some t) = ltb now t

abbrev pub is_shown : (now : ℕ) → String → VerifiedPredicate → Bool
is_shown now product_id vp = vp.product_id == product_id && is_current now vp.expires_at

unfoldable pub get_verified_predicates :
    Postgres → (now : ℕ) → String → Tables → List VerifiedPredicate
get_verified_predicates pg now product_id db =
    pg.by_verified_at (filter (is_shown now product_id) db.verified)

pub get_verified_predicates_by_supplier :
    Postgres → (now : ℕ) → String → (supplier_id : String) → Tables → List VerifiedPredicate
get_verified_predicates_by_supplier pg now product_id supplier_id db =
    pg.by_verified_at
      (filter (λ vp. is_shown now product_id vp && vp.supplier_id == supplier_id) db.verified)

abbrev record_for : (id : String) (now : ℕ) → VerificationEvent → Option Product → Tables → Tables
record_for id now event none db = db
record_for id now event (some product) db =
    (record_verification id now product.id
      (record {
        predicate_id = canonical_id event.payload.predicate_id;
        receipt_id = event.payload.receipt_id;
        result = event.payload.result;
        supplier_id = event.payload.supplier_id;
        expires_at = none;
      })
      db).1

abbrev with_binding :
    Postgres → (id : String) (now : ℕ) → VerificationEvent → Option String → Tables → Tables
with_binding pg id now event none db = db
with_binding pg id now event (some binding) db =
    if truthy binding then record_for id now event (get_product_by_binding pg binding db) db else db

-- The handler of a verification event: what it leaves in the tables.
unfoldable pub on_event : Postgres → (id : String) (now : ℕ) → VerificationEvent → Tables → Tables
on_event pg id now event db = with_binding pg id now event event.payload.product_binding db
