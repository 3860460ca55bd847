-- ===== src/Dpp/Routes/Products.antt =====
-- What the product routes and the subscriber keep true of the tables.
use zk_dpp_royalty_protocol.Common.{
  ℕ, String, ◌≡◌, ◌≢◌, ◌↔◌, refl, sym, subst, Bool, true, false, ◌||◌, is_some, inl, inr, List, [],
  ◌∷◌, ◌++◌, arith, eq_iff, ◌==◌, any, Bool-cases, Option-cases,
}
use zk_dpp_royalty_protocol.Common.Results.{Result, ok, err}
use zk_dpp_royalty_protocol.Dpp.Types.{Product, CreateProductRequest}
use zk_dpp_royalty_protocol.Dpp.Database.{Tables, get_product_by_sku, create_product}
use zk_dpp_royalty_protocol.Dpp.Routes.{inserted, post_product}

-- No two products share an identifier or a SKU.
abbrev pub UniqueProducts : List Product → Type 0
UniqueProducts [] = Unit
UniqueProducts (p ∷ ps) = (any (λ q. q.id == p.id || q.sku == p.sku) ps ≡ false) × UniqueProducts ps

any-append :
    (f : Product → Bool) (ps : List Product) (p : Product)
    → any f (ps ++ p ∷ []) ≡ (any f ps || f p)
any-append f [] p = ground arith
any-append f (q ∷ ps) p = ground (arith, any-append f ps p)

append-UniqueProducts :
    (ps : List Product) (p : Product)
    → any (λ q. q.id == p.id || q.sku == p.sku) ps ≡ false
    → UniqueProducts ps
    → UniqueProducts (ps ++ p ∷ [])
append-UniqueProducts [] p absent h = (refl, tt)
append-UniqueProducts (q ∷ ps) p absent (fresh, h) = (
  ground (
    arith,
    absent,
    fresh,
    any-append (λ r. r.id == q.id || r.sku == q.sku) ps p,
    eq_iff p.id q.id,
    eq_iff q.id p.id,
    eq_iff p.sku q.sku,
    eq_iff q.sku p.sku,
  ),
  append-UniqueProducts ps p (ground (arith, absent)) h,
)

create_product-UniqueProducts :
    (id : String) (now : ℕ) (input : CreateProductRequest) (db : Tables)
    → UniqueProducts db.products
    → UniqueProducts (create_product id now input db).1.products
unfolding create_product
create_product-UniqueProducts id now input db h =
    elim (Bool-cases (any (λ p. p.id == id || p.sku == input.sku) db.products)) [
      | inl y ↦ rw (y, create_product) h
      | inr n ↦ rw (n, create_product) (append-UniqueProducts db.products _ n h)
    ]

inserted-db : (message : String) (r : Result Product × Tables) → (inserted message r).1 ≡ r.1
inserted-db message (ok p, db) = refl
inserted-db message (err e, db) = refl

inserted-code :
    (message : String) (r : Result Product × Tables) → ◌≢◌ {A = ℕ} (inserted message r).0.0 400
inserted-code message (ok p, db) h = absurd (omega (arith, h))
inserted-code message (err e, db) h = absurd (omega (arith, h))

-- Creating a product keeps identifiers and SKUs unique. It is answered with 400 exactly if a product
-- with the SKU is there.
pub post_product-UniqueProducts :
    (id : String) (now : ℕ) (input : CreateProductRequest) (db : Tables)
    → UniqueProducts db.products
    → UniqueProducts (post_product id now input db).1.products
      × (((post_product id now input db).0.0 ≡ 400)
          ↔ (is_some (get_product_by_sku input.sku db) ≡ true))
unfolding post_product
post_product-UniqueProducts id now input db h =
    let created = create_product id now input db in
    elim (Option-cases (get_product_by_sku input.sku db)) [
      | inr (p, k) ↦ rw (k, post_product) (h, (λ e. refl, λ e. refl))
      | inl k ↦
          rw (k, post_product)
            (
              subst (λ t. UniqueProducts t.products)
                  (sym (inserted-db "Failed to create product" created))
                  (create_product-UniqueProducts id now input db h),
              (
                λ e. absurd (inserted-code "Failed to create product" created e),
                λ e. absurd (cc e),
              ),
            )
    ]
