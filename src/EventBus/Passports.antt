-- ===== src/EventBus/Passports.antt =====
-- services/dpp-builder/src/index.ts behind the loop of packages/event-bus: the handler of a
-- verification event as the bus calls it, with the errors of its two queries, which it does not
-- catch.
pub mod Recorded
mod Tests
use zk_dpp_royalty_protocol.Common.{
  ℕ, String, Bool, true, false, not, ◌≡◌, refl, sym, ◌∙◌, ap, subst, ◌⊎◌, inl, inr, Option, none,
  some, List, [], ◌∷◌, ◌++◌, ◌==◌, In, here, there, In-nil, truthy, is_some, if◌then◌else◌,
}
use zk_dpp_royalty_protocol.Common.Results.{Result, ok, err}
use zk_dpp_royalty_protocol.Common.Exec.{Exec}
use zk_dpp_royalty_protocol.Predicates.{canonical_id}
use zk_dpp_royalty_protocol.Schemas.{VerificationEvent}
use zk_dpp_royalty_protocol.Dpp.Types.{Product, VerifiedPredicate, RecordVerificationRequest}
use zk_dpp_royalty_protocol.Dpp.Database.{
  Tables, Postgres, get_product, get_product_by_binding, record_verification, new_verification,
}
use zk_dpp_royalty_protocol.EventBus.Consumer.{Attempt, run, handed}
use zk_dpp_royalty_protocol.EventBus.Effects.{effects, run-effects, effects-append}
use zk_dpp_royalty_protocol.EventBus.Delivery.{
  In-append_left, In-append_right, waiting-Fate, IsHandled,
}

-- What one call of the handler reads from outside: the generated id, the clock of the database, and
-- the error of each query, if it has one.
pub record Env : Type 0 where
  pub id : String
  pub now : ℕ
  pub find_fault : Option String
  pub record_fault : Option String

abbrev pub request_of : VerificationEvent → RecordVerificationRequest
request_of event = record {
  predicate_id = canonical_id event.payload.predicate_id;
  receipt_id = event.payload.receipt_id;
  result = event.payload.result;
  supplier_id = event.payload.supplier_id;
  expires_at = none;
}

abbrev pub dropped : Result VerifiedPredicate × Tables → Result (Unit {0}) × Tables
dropped (ok v, db) = (ok tt, db)
dropped (err e, db) = (err e, db)

abbrev pub record_for :
    Env → VerificationEvent → (fault : Option String) → Product → Exec Tables (Unit {0})
record_for env event (some e) product = λ db. (err e, db)
record_for env event none product =
    λ db. dropped (record_verification env.id env.now product.id (request_of event) db)

abbrev pub for_product : Env → VerificationEvent → Option Product → Exec Tables (Unit {0})
for_product env event none = λ db. (ok tt, db)
for_product env event (some product) = record_for env event env.record_fault product

module _ (pg : Postgres) where
  abbrev pub find_product :
      Env
      → VerificationEvent
      → (fault : Option String) → (binding : String) → Exec Tables (Unit {0})
  find_product env event (some e) binding = λ db. (err e, db)
  find_product env event none binding =
      λ db. for_product env event (get_product_by_binding pg binding db) db

  abbrev pub with_binding : Env → VerificationEvent → Option String → Exec Tables (Unit {0})
  with_binding env event none = λ db. (ok tt, db)
  with_binding env event (some binding) = λ db.
      if not (truthy binding) then (ok tt, db) else find_product env event env.find_fault binding db

  unfoldable pub handler : Env → VerificationEvent → Exec Tables (Unit {0})
  handler env event db = with_binding env event event.payload.product_binding db
