-- ===== src/Dpp/Routes/Listing.antt =====
-- The pages of GET /products (services/dpp-builder/src/routes/products.ts) and `updateProduct` of
-- services/dpp-builder/src/db/index.ts. `by_created_at` is ORDER BY created_at DESC; the limit and
-- the offset are natural numbers, since PostgreSQL refuses negative ones.
use zk_dpp_royalty_protocol.Common.{
  ℕ, zero, suc, ◌+◌, String, ◌≡◌, refl, sym, ◌∙◌, ap, Bool, ◌||◌, Option, none, some, List, [], ◌∷◌,
  ◌++◌, ◌==◌, arith, any, map, or_else, is_some, if◌then◌else◌, Bool-cases, inl, inr,
}
use zk_dpp_royalty_protocol.Dpp.Types.{Product}
use zk_dpp_royalty_protocol.Dpp.Database.{Tables, get_product}
use zk_dpp_royalty_protocol.Dpp.Routes.Products.{UniqueProducts}

-- LIMIT and OFFSET
abbrev pub take_rows : (limit : ℕ) → List Product → List Product
take_rows limit [] = []
take_rows zero (p ∷ ps) = []
take_rows (suc limit) (p ∷ ps) = p ∷ take_rows limit ps

abbrev pub skip_rows : (offset : ℕ) → List Product → List Product
skip_rows offset [] = []
skip_rows zero (p ∷ ps) = p ∷ ps
skip_rows (suc offset) (p ∷ ps) = skip_rows offset ps

module _ (by_created_at : List Product → List Product) where
  unfoldable pub list_products : (limit offset : ℕ) → Tables → List Product
  list_products limit offset db = take_rows limit (skip_rows offset (by_created_at db.products))

  -- GET /products
  unfoldable pub get_products : (limit offset : Option ℕ) → Tables → List Product
  get_products limit offset db = list_products (or_else limit 100) (or_else offset 0) db

-- The fields of `Partial<CreateProductRequest>` that an update reads.
pub record ProductUpdates : Type 0 where
  pub name : Option String
  pub description : Option String
  pub category : Option String
  -- JSON.stringify(updates.metadata)
  pub metadata : Option String

abbrev pub has_fields : ProductUpdates → Bool
has_fields u =
    is_some u.name || (is_some u.description || (is_some u.category || is_some u.metadata))

abbrev pub described : Option String → Option String → Option String
described none old = old
described (some s) old = some s

unfoldable pub updated_product : (now : ℕ) → ProductUpdates → Product → Product
updated_product now u p = record p {
  name = or_else u.name p.name;
  description = described u.description p.description;
  category = or_else u.category p.category;
  metadata = or_else u.metadata p.metadata;
  updated_at = now;
}

abbrev pub update_product_row : (id : String) (now : ℕ) → ProductUpdates → Product → Product
update_product_row id now u p = if p.id == id then updated_product now u p else p

unfoldable pub update_product :
    (id : String) (now : ℕ) → ProductUpdates → Tables → Option Product × Tables
update_product id now u db =
    let db' : Tables =
      if has_fields u
      then record db { products = map (update_product_row id now u) db.products }
      else db in
    (get_product id db', db')

zero_add : (n : ℕ) → 0 + n ≡ n
zero_add n = omega arith

suc_add : (m n : ℕ) → suc m + n ≡ suc (m + n)
suc_add m n = omega arith

pages-concat-first :
    (a b : ℕ) (ps : List Product)
    → take_rows a ps ++ take_rows b (skip_rows a ps) ≡ take_rows (a + b) ps
pages-concat-first a b [] = refl
pages-concat-first zero b (p ∷ ps) = ap (λ n. take_rows n (p ∷ ps)) (sym (zero_add b))
pages-concat-first (suc a) b (p ∷ ps) =
    ap (λ rows. p ∷ rows) (pages-concat-first a b ps)
    ∙ ap (λ n. take_rows n (p ∷ ps)) (sym (suc_add a b))

pages-concat :
    (a b offset : ℕ) (ps : List Product)
    → take_rows a (skip_rows offset ps) ++ take_rows b (skip_rows (offset + a) ps)
      ≡ take_rows (a + b) (skip_rows offset ps)
pages-concat a b offset [] = refl
pages-concat a b (suc offset) (p ∷ ps) =
    ap (λ n. take_rows a (skip_rows offset ps) ++ take_rows b (skip_rows n (p ∷ ps)))
      (suc_add offset a)
    ∙ pages-concat a b offset ps
pages-concat a b zero (p ∷ ps) =
    ap (λ n. take_rows a (p ∷ ps) ++ take_rows b (skip_rows n (p ∷ ps))) (zero_add a)
    ∙ pages-concat-first a b (p ∷ ps)

-- A page and the page that starts where it ends are together the page of both limits: no product is
-- listed twice or left out between them.
pub list_products-pages :
    (by_created_at : List Product → List Product) (a b offset : ℕ) (db : Tables)
    → list_products by_created_at a offset db ++ list_products by_created_at b (offset + a) db
      ≡ list_products by_created_at (a + b) offset db
unfolding list_products
list_products-pages by_created_at a b offset db =
    pages-concat a b offset (by_created_at db.products)

module _ (id : String) (now : ℕ) (u : ProductUpdates) where
  row-keeps :
      (p : Product)
      → ((update_product_row id now u p).id ≡ p.id) × ((update_product_row id now u p).sku ≡ p.sku)
  unfolding updated_product
  row-keeps p = elim (Bool-cases (p.id == id)) [
    | inl e ↦ rw e (refl, refl)
    | inr e ↦ rw e (refl, refl)
  ]

  any-update :
      (i k : String) (ps : List Product)
      → any (λ r. r.id == i || r.sku == k) (map (update_product_row id now u) ps)
        ≡ any (λ r. r.id == i || r.sku == k) ps
  any-update i k [] = refl
  any-update i k (p ∷ ps) = rw ((row-keeps p).0, (row-keeps p).1, any-update i k ps) refl

  update-UniqueProducts :
      (ps : List Product)
      → UniqueProducts ps
      → UniqueProducts (map (update_product_row id now u) ps)
  update-UniqueProducts [] h = h
  update-UniqueProducts (p ∷ ps) (fresh, h) = (
    rw ((row-keeps p).0, (row-keeps p).1, any-update p.id p.sku ps) fresh,
    update-UniqueProducts ps h,
  )

  -- An update keeps identifiers and SKUs unique, whether or not it has a field to set.
  pub update_product-UniqueProducts :
      (db : Tables)
      → UniqueProducts db.products
      → UniqueProducts (update_product id now u db).1.products
  unfolding update_product
  update_product-UniqueProducts db h = elim (Bool-cases (has_fields u)) [
    | inl e ↦ rw (e, update_product) (update-UniqueProducts db.products h)
    | inr e ↦ rw (e, update_product) h
  ]
