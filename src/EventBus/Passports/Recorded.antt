-- ===== src/EventBus/Passports/Recorded.antt =====
-- No event of a product is lost by the passport service behind the loop of packages/event-bus.
use zk_dpp_royalty_protocol.Common.{
  String, Bool, true, false, not, ◌≡◌, refl, sym, ◌∙◌, ap, subst, ◌⊎◌, inl, inr, Option, none, some,
  List, [], ◌∷◌, ◌++◌, In, here, In-nil, truthy, is_some, if◌then◌else◌,
}
use zk_dpp_royalty_protocol.Common.Results.{Result, ok, err}
use zk_dpp_royalty_protocol.Schemas.{VerificationEvent}
use zk_dpp_royalty_protocol.Dpp.Types.{Product, VerifiedPredicate}
use zk_dpp_royalty_protocol.Dpp.Database.{
  Tables, Postgres, get_product, get_product_by_binding, record_verification, new_verification,
}
use zk_dpp_royalty_protocol.EventBus.Consumer.{Attempt, run, handed}
use zk_dpp_royalty_protocol.EventBus.Effects.{effects, run-effects, effects-append}
use zk_dpp_royalty_protocol.EventBus.Delivery.{
  In-append_left, In-append_right, waiting-Fate, IsHandled,
}
use zk_dpp_royalty_protocol.EventBus.Passports.{
  Env, request_of, dropped, record_for, for_product, find_product, with_binding, handler,
}

module _ (pg : Postgres) where
  -- The tables after a call: those before it, or with one more verification.
  abbrev Extends : Tables → Tables → Type 0
  Extends db db' =
      (db' ≡ db)
      ⊎ ((v : VerifiedPredicate) × (db' ≡ record db { verified = db.verified ++ v ∷ [] }))

  record_for-Extends :
      (env : Env) (event : VerificationEvent) (fault : Option String) (product : Product)
      (db : Tables)
      → Extends db (record_for env event fault product db).1
  unfolding record_verification
  record_for-Extends env event (some e) product db = inl refl
  record_for-Extends env event none product db = go (is_some (get_product product.id db))
    where
      v : VerifiedPredicate
      v = new_verification env.id env.now product.id (request_of event)

      go :
          (b : Bool)
          → Extends db
              (dropped (
                if b
                then (ok v, record db { verified = db.verified ++ v ∷ [] })
                else (err "insert violates foreign key constraint", db))).1
      go true = inr (v, refl)
      go false = inl refl

  handler-Extends :
      (env : Env) (event : VerificationEvent) (db : Tables) → Extends db (handler pg env event db).1
  unfolding handler
  handler-Extends env event db = go event.payload.product_binding
    where
      matched : (o : Option Product) → Extends db (for_product env event o db).1
      matched none = inl refl
      matched (some product) = record_for-Extends env event env.record_fault product db

      found :
          (fault : Option String) (binding : String)
          → Extends db (find_product pg env event fault binding db).1
      found (some e) binding = inl refl
      found none binding = matched (get_product_by_binding pg binding db)

      bound :
          (b : Bool) (binding : String)
          → Extends db
              (if not b then (ok tt, db) else find_product pg env event env.find_fault binding db).1
      bound false binding = inl refl
      bound true binding = found env.find_fault binding

      go : (o : Option String) → Extends db (with_binding pg env event o db).1
      go none = inl refl
      go (some binding) = bound (truthy binding) binding

  Extends-products : (db db' : Tables) → Extends db db' → db'.products ≡ db.products
  Extends-products db db' (inl same) = ap (λ t. t.products) same
  Extends-products db db' (inr (v, more)) = ap (λ t. t.products) more

  Extends-verified :
      (v : VerifiedPredicate) (db db' : Tables)
      → Extends db db'
      → In v db.verified
      → In v db'.verified
  Extends-verified v db db' (inl same) i = subst (λ t. In v t.verified) (sym same) i
  Extends-verified v db db' (inr (u, more)) i =
      subst (λ t. In v t.verified) (sym more) (In-append_left v db.verified (u ∷ []) i)

  module _ (parse : String → Result VerificationEvent) where
    effects-products :
        (log : List (Env × VerificationEvent)) (db : Tables)
        → (effects parse (handler pg) log db).products ≡ db.products
    effects-products [] db = refl
    effects-products ((env, event) ∷ log) db =
        effects-products log (handler pg env event db).1
        ∙ Extends-products db (handler pg env event db).1 (handler-Extends env event db)

    effects-verified :
        (v : VerifiedPredicate) (log : List (Env × VerificationEvent)) (db : Tables)
        → In v db.verified
        → In v (effects parse (handler pg) log db).verified
    effects-verified v [] db i = i
    effects-verified v ((env, event) ∷ log) db i =
        effects-verified v log (handler pg env event db).1
          (Extends-verified v db (handler pg env event db).1 (handler-Extends env event db) i)

  -- The product of a binding is the same in all tables with the same products.
  get_product_by_binding-products :
      (binding : String) (db db' : Tables)
      → db'.products ≡ db.products
      → get_product_by_binding pg binding db' ≡ get_product_by_binding pg binding db
  unfolding get_product_by_binding
  get_product_by_binding-products binding db db' same = rw same refl

  module _ (env : Env) (event : VerificationEvent) (product : Product) where
    abbrev pub verification_of : VerifiedPredicate
    verification_of = new_verification env.id env.now product.id (request_of event)

    -- A call that returned has recorded the verification.
    abbrev Records : Result (Unit {0}) × Tables → Type 0
    Records x = x.0 ≡ ok tt → In verification_of x.1.verified

    record_for-Records :
        (fault : Option String) (db : Tables) → Records (record_for env event fault product db)
    unfolding record_verification
    record_for-Records (some e) db h = absurd (cc h)
    record_for-Records none db h = go (is_some (get_product product.id db)) h
      where
        go :
            (b : Bool)
            → Records (
                dropped (
                  if b
                  then (
                    ok verification_of,
                    record db { verified = db.verified ++ verification_of ∷ [] },
                  )
                  else (err "insert violates foreign key constraint", db)))
        go true k = In-append_right verification_of db.verified (verification_of ∷ []) (here refl)
        go false k = absurd (cc k)

    find_product-Records :
        (fault : Option String) (binding : String) (db : Tables)
        → get_product_by_binding pg binding db ≡ some product
        → Records (find_product pg env event fault binding db)
    find_product-Records (some e) binding db found = λ h. absurd (cc h)
    find_product-Records none binding db found =
        subst (λ o. Records (for_product env event o db)) (sym found)
          (record_for-Records env.record_fault db)

    handler-Records :
        (binding : String) (db : Tables)
        → event.payload.product_binding ≡ some binding
        → truthy binding ≡ true
        → get_product_by_binding pg binding db ≡ some product
        → Records (handler pg env event db)
    unfolding handler
    handler-Records binding db bound true_text found =
        subst (λ o. Records (with_binding pg env event o db)) (sym bound)
          (rw true_text (find_product-Records env.find_fault binding db found))

  module _ (parse : String → Result VerificationEvent) where
    -- Whatever queries fail and however the bus delivers: once no message of the consumer waits,
    -- each event that was among them and whose binding is that of a product has a verification of
    -- that product in the tables, recorded by some delivery of it.
    pub passport_recorded :
        (as' : List (Attempt Env)) (queue : List String) (db : Tables) (m : String)
        (event : VerificationEvent) (binding : String) (product : Product)
        → (run parse (handler pg) as' (queue, db)).0 ≡ []
        → In m queue
        → parse m ≡ ok event
        → event.payload.product_binding ≡ some binding
        → truthy binding ≡ true
        → get_product_by_binding pg binding db ≡ some product
        → (env : Env) × In
            (verification_of env event product)
            (run parse (handler pg) as' (queue, db)).1.verified
    passport_recorded as' queue db m event binding product done i p bound true_text found =
        settled (waiting-Fate parse (handler pg) as' queue db m i)
      where
        log : List (Env × VerificationEvent)
        log = handed parse (handler pg) as' (queue, db)

        recorded :
            (env : Env) (earlier later : List (Env × VerificationEvent))
            → (handler pg env event (effects parse (handler pg) earlier db)).0 ≡ ok tt
            → In
                (verification_of env event product)
                (effects parse (handler pg) (earlier ++ (env, event) ∷ later) db).verified
        recorded env earlier later returned =
            let before = effects parse (handler pg) earlier db in
            subst (λ t. In (verification_of env event product) t.verified)
              (sym (effects-append parse (handler pg) earlier ((env, event) ∷ later) db))
              (effects-verified parse (verification_of env event product) later
                (handler pg env event before).1
                (handler-Records env event product binding before bound true_text
                  (get_product_by_binding-products binding db before
                      (effects-products parse earlier db)
                    ∙ found)
                  returned))

        settled :
            In m (run parse (handler pg) as' (queue, db)).0 ⊎ IsHandled parse (handler pg) m db log
            → (env : Env) × In
                (verification_of env event product)
                (run parse (handler pg) as' (queue, db)).1.verified
        settled (inl still) = absurd (In-nil (subst (λ q. In m q) done still))
        settled (inr h) =
            let same : h.d ≡ event = cc (h.parsed, p) in
            let given = subst (λ e. log ≡ h.earlier ++ (h.env, e) ∷ h.later) same h.given in
            let rows =
              run-effects parse (handler pg) as' queue db
              ∙ ap (λ l. effects parse (handler pg) l db) given in
            (
              h.env,
              subst (λ t. In (verification_of h.env event product) t.verified) (sym rows)
                  (recorded h.env h.earlier h.later (
                    subst
                      (λ e.
                        (handler pg h.env e (effects parse (handler pg) h.earlier db)).0 ≡ ok tt)
                      same h.returned)),
            )
