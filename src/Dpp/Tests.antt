-- ===== src/Dpp/Tests.antt =====
-- A product with two verifications and a supplier, and instances of the theorems on its views.
use mathlib.Core.List.Perm
use mathlib.Core.List.{Perm}
use zk_dpp_royalty_protocol.Common.{
  ℕ, String, ◌≡◌, refl, ◌↔◌, true, is_some, Option, none, some, List, [], ◌∷◌, ◌++◌, map, filter,
  ◌&&◌, ◌==◌,
}
use zk_dpp_royalty_protocol.Predicates.{Registry, lte, eur}
use zk_dpp_royalty_protocol.Predicates
use zk_dpp_royalty_protocol.Shared.Rbac.{AuthUser}
use zk_dpp_royalty_protocol.Dpp.Types.{
  Product, CreateProductRequest, ProductSupplierLink, VerifiedPredicate, legit_interest, authority,
}
use zk_dpp_royalty_protocol.Dpp.Database.{
  Tables, Postgres, get_product, is_current, get_product_by_sku,
}
use zk_dpp_royalty_protocol.Dpp.Composer.{
  shows_legit, verified_infos, compose_dpp_view, verified_entry, linked_entry,
}
use zk_dpp_royalty_protocol.Dpp.Composer.Latest.{find_info, NoRepeat, Shown, verified_infos-Shown}
use zk_dpp_royalty_protocol.Dpp.Composer.Audit.{IsLatestFirst, trail_of, audit_trail_current}
use zk_dpp_royalty_protocol.Dpp.Routes.{post_product}
use zk_dpp_royalty_protocol.Dpp.Routes.Views.{dedicated, IsRight, dedicated-IsRight}
use zk_dpp_royalty_protocol.Dpp.Routes.Listing.{
  ProductUpdates, get_products, list_products, list_products-pages, update_product,
  update_product-UniqueProducts,
}
use zk_dpp_royalty_protocol.Dpp.Routes.Products.{UniqueProducts, post_product-UniqueProducts}

abbrev registry : Registry
registry =
    (
      "CARBON_V1",
      record {
        name = "CARBON";
        version = "V1";
        description = "Carbon footprint";
        circuit_path = "carbon_v1";
        public_inputs = [];
        access_groups = Predicates.AccessGroup.legit_interest ∷ [];
        pricing = record { per_verification = 500; currency = eur };
        claim_type = "carbon";
        comparison = lte;
      },
    )
    ∷ []

abbrev verification : (id : String) (verified_at : ℕ) → VerifiedPredicate
verification id verified_at = record {
  id = id;
  product_id = "p-1";
  supplier_id = "s-1";
  predicate_id = "CARBON_V1";
  receipt_id = "r-1";
  result = true;
  verified_at = verified_at;
  expires_at = none;
}

abbrev vps : List VerifiedPredicate
vps = verification "v-2" 200 ∷ verification "v-1" 100 ∷ []

abbrev links : List ProductSupplierLink
links =
    record {
      id = "l-1";
      product_id = "p-1";
      supplier_id = "s-1";
      commitment_root = "c0";
      supplier_public_key = "k0";
      linked_at = 150;
      active = true;
    }
    ∷ []

abbrev product : Product
product = record {
  id = "p-1";
  sku = "sku-1";
  name = "Battery";
  description = none;
  category = "battery";
  metadata = "{}";
  created_at = 50;
  updated_at = 50;
}

abbrev db : Tables
db = record { products = product ∷ []; links = links; verified = vps }

abbrev pg : Postgres
pg = record {
  by_linked_at = λ ls. ls;
  by_verified_at = λ vs. vs;
  sha256_hex = λ s. s;
  is_uuid = λ s. true;
}

abbrev auditor : Option AuthUser
auditor = some (record { id = "u-1"; email = none; username = none; roles = "auditor" ∷ [] })

verified_infos-Shown_example :
    NoRepeat (verified_infos registry (shows_legit registry) vps)
    × ((k : String)
        → Shown registry
            (shows_legit registry)
            k
            vps
            (find_info k (verified_infos registry (shows_legit registry) vps)))
verified_infos-Shown_example = verified_infos-Shown registry (shows_legit registry) vps

the_product : get_product "p-1" db ≡ some product
unfolding get_product
the_product = refl

audit_trail_current_example :
    let trail = trail_of (compose_dpp_view registry pg 300 db "p-1" authority) in
    Perm trail (
      map verified_entry (filter (λ vp. vp.product_id == "p-1" && is_current 300 vp.expires_at) vps)
      ++ map linked_entry (filter (λ l. l.product_id == "p-1" && l.active) links))
    × IsLatestFirst trail
audit_trail_current_example =
    audit_trail_current registry pg 300 db "p-1" product (λ vs. Perm.refl vs) (λ ls. Perm.refl ls)
      the_product

dedicated-IsRight_example :
    IsRight registry pg 300 db auditor "p-1" legit_interest 403
      (dedicated registry pg 300 db auditor "p-1" legit_interest)
dedicated-IsRight_example = dedicated-IsRight registry pg 300 db auditor "p-1" legit_interest

abbrev new_battery : CreateProductRequest
new_battery = record {
  sku = "sku-1";
  name = "Battery";
  description = none;
  category = "battery";
  metadata = none;
}

post_product-UniqueProducts_example :
    UniqueProducts (post_product "p-2" 300 new_battery db).1.products
    × (((post_product "p-2" 300 new_battery db).0.0 ≡ 400)
        ↔ (is_some (get_product_by_sku "sku-1" db) ≡ true))
post_product-UniqueProducts_example =
    post_product-UniqueProducts "p-2" 300 new_battery db (refl, tt)

list_products-pages_example :
    list_products (λ ps. ps) 1 0 db ++ list_products (λ ps. ps) 5 1 db
    ≡ list_products (λ ps. ps) 6 0 db
list_products-pages_example = list_products-pages (λ ps. ps) 1 5 0 db

first_page : get_products (λ ps. ps) none none db ≡ db.products
unfolding get_products list_products
first_page = refl

abbrev renaming : ProductUpdates
renaming = record { name = some "Cell"; description = none; category = none; metadata = none }

update_product-UniqueProducts_example :
    UniqueProducts (update_product "p-1" 400 renaming db).1.products
update_product-UniqueProducts_example =
    update_product-UniqueProducts "p-1" 400 renaming db (refl, tt)
