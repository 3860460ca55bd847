-- ===== src/Dpp/Routes.antt =====
-- services/dpp-builder/src/routes: the handlers of routes/dpp.ts that answer with a view, and those
-- of routes/products.ts. The queries do not fail, except where a key or a reference makes an INSERT
-- fail, or where a view is asked for a product by a text that is no UUID. An error thrown by a
-- check before a handler is answered with its status. The user is what the service's preHandler
-- made of the token.
pub mod Views
pub mod Products
pub mod Listing
use zk_dpp_royalty_protocol.Common.{
  ℕ, String, Bool, true, false, not, Option, none, some, List, [], ◌∷◌, if◌then◌else◌,
}
use zk_dpp_royalty_protocol.Common.JsMap
use zk_dpp_royalty_protocol.Common.Results.{Result, ok, err}
use zk_dpp_royalty_protocol.Predicates.{Registry, ◌⧺◌}
use zk_dpp_royalty_protocol.Shared.Errors.{ZkDppError, get_http_status_from_code}
use zk_dpp_royalty_protocol.Shared.Rbac.{
  AuthUser, DppViewType, dpp_view_roles, has_any_role, require_dpp_view_access, view_type_text,
}
use zk_dpp_royalty_protocol.Dpp.Types.{
  Product, ProductSupplierLink, VerifiedPredicate, AccessLevel, public, legit_interest, authority,
  DppView, CreateProductRequest, LinkSupplierRequest, RecordVerificationRequest,
}
use zk_dpp_royalty_protocol.Dpp.Database.{
  Tables, Postgres, get_product, get_product_by_sku, create_product, link_supplier,
  record_verification,
}
use zk_dpp_royalty_protocol.Dpp.Composer.{compose_dpp_view}

pub record ViewReply : Type 0 where
  pub code : ℕ
  pub dpp : Option DppView
  pub error : Option String

abbrev pub view_refusal : (code : ℕ) → String → ViewReply
view_refusal code e = record { code = code; dpp = none; error = some e }

abbrev view_reply : Option DppView → ViewReply
view_reply none = view_refusal 404 "Product not found"
view_reply (some dpp) = record { code = 200; dpp = some dpp; error = none }

-- The keys of `viewTypeMap`.
abbrev pub view_type_map : List (String × AccessLevel)
view_type_map =
    ("public", public) ∷ ("legit-interest", legit_interest) ∷ ("authority", authority) ∷ []

abbrev pub access_to_dpp_view : AccessLevel → DppViewType
access_to_dpp_view public = DppViewType.public
access_to_dpp_view legit_interest = DppViewType.legit_interest
access_to_dpp_view authority = DppViewType.authority

module _ (registry : Registry) (pg : Postgres) (now : ℕ) (db : Tables) (user : Option AuthUser)
    (id : String) where
  unfoldable pub view_handler : AccessLevel → ViewReply
  view_handler level =
      if pg.is_uuid id
      then view_reply (compose_dpp_view registry pg now db id level)
      else view_refusal 500 "Internal Server Error"

  unfoldable pub after_check : AccessLevel → Option ZkDppError → ViewReply
  after_check level none = view_handler level
  after_check level (some e) = view_refusal (get_http_status_from_code e.code) e.message

  -- GET /dpp/:id/view/public, which has no check
  unfoldable pub get_public_view : ViewReply
  get_public_view = view_handler public

  -- GET /dpp/:id/view/legit-interest
  unfoldable pub get_legit_interest_view : ViewReply
  get_legit_interest_view =
      after_check legit_interest (require_dpp_view_access DppViewType.legit_interest user)

  -- GET /dpp/:id/view/authority
  unfoldable pub get_authority_view : ViewReply
  get_authority_view = after_check authority (require_dpp_view_access DppViewType.authority user)

  -- The check in the body of the handler below, for a view that is not public.
  unfoldable pub guarded_view : AccessLevel → Option AuthUser → ViewReply
  guarded_view level none = view_refusal 401 "Authentication required for this view"
  guarded_view level (some u) =
      if not (has_any_role (some u) (dpp_view_roles (access_to_dpp_view level)))
      then view_refusal 403
          ("Access denied to " ⧺ view_type_text (access_to_dpp_view level) ⧺ " view")
      else view_handler level

  unfoldable pub view_of_level : Option AccessLevel → ViewReply
  view_of_level none = view_refusal 400 "Invalid access level"
  view_of_level (some public) = view_handler public
  view_of_level (some legit_interest) = guarded_view legit_interest user
  view_of_level (some authority) = guarded_view authority user

  -- GET /dpp/:id/view/:level, of the level in lower case
  unfoldable pub get_view : (level : String) → ViewReply
  get_view level = view_of_level (JsMap.get level view_type_map)

-- The code, and the row or the error.
abbrev pub Reply : Type 0 → Type 0
Reply A = ℕ × Result A

abbrev pub inserted {ℓ} : {W : Type ℓ} {A : Type 0} → String → Result A × W → Reply A × W
inserted message (ok a, w) = ((201, ok a), w)
inserted message (err e, w) = ((500, err message), w)

-- POST /products
unfoldable pub post_product :
    (id : String) (now : ℕ) → CreateProductRequest → Tables → Reply Product × Tables
post_product id now input db = elim (get_product_by_sku input.sku db) [
  | some existing ↦ ((400, err "SKU already exists"), db)
  | none ↦ inserted "Failed to create product" (create_product id now input db)
]

-- GET /products/:id
pub get_product_by_id : String → Tables → Reply Product
get_product_by_id id db = elim (get_product id db) [
  | none ↦ (404, err "Product not found")
  | some product ↦ (200, ok product)
]

-- POST /products/:id/link-supplier
unfoldable pub post_link_supplier :
    (id : String) (now : ℕ)
    → String
    → LinkSupplierRequest
    → Tables
    → Reply ProductSupplierLink × Tables
post_link_supplier id now product_id input db = elim (get_product product_id db) [
  | none ↦ ((404, err "Product not found"), db)
  | some product ↦ inserted "Failed to link supplier" (link_supplier id now product_id input db)
]

-- POST /products/:id/verifications
unfoldable pub post_verification :
    (id : String) (now : ℕ)
    → String
    → RecordVerificationRequest
    → Tables
    → Reply VerifiedPredicate × Tables
post_verification id now product_id input db = elim (get_product product_id db) [
  | none ↦ ((404, err "Product not found"), db)
  | some product ↦
      inserted "Failed to record verification" (record_verification id now product_id input db)
]
