-- ===== src/Metering/Usage.antt =====
-- Usage records: `recordUsage` and `getUsageBySupplier` of
-- services/metering-billing/src/db/index.ts, and the subscriber of
-- services/metering-billing/src/index.ts. The table is a list of rows in the order of insertion.
-- Its key and its UNIQUE column (infra/docker/init-db) make an INSERT fail.
pub mod Delivery
mod Tests
use zk_dpp_royalty_protocol.Common.{
  ℕ, ◌+◌, String, Bool, true, false, ◌&&◌, ◌||◌, Option, none, some, List, [], ◌∷◌, ◌++◌, ltb, leb,
  ◌==◌, truthy, any, filter, length, if◌then◌else◌,
}
use zk_dpp_royalty_protocol.Common.Results.{Result, ok, err}
use zk_dpp_royalty_protocol.Predicates.{
  Registry, PredicateDefinition, Currency, eur, canonical_id, text, get_predicate,
}
use zk_dpp_royalty_protocol.Schemas.{VerificationEvent}
use zk_dpp_royalty_protocol.Metering.Types.{VerificationUsage, RecordUsageRequest}

abbrev pub Usages : Type 0
Usages = List VerificationUsage

-- `predicate?.pricing.perVerification ?? 0.05`
unfoldable pub price_of : Option PredicateDefinition → ℕ
price_of none = 500
price_of (some p) = p.pricing.per_verification

unfoldable pub currency_of : Option PredicateDefinition → Currency
currency_of none = eur
currency_of (some p) = p.pricing.currency

-- `brandId || null`
abbrev pub or_null : Option String → Option String
or_null none = none
or_null (some s) = if truthy s then some s else none

module _ (registry : Registry) where
  unfoldable pub new_usage : (id : String) (now : ℕ) → RecordUsageRequest → VerificationUsage
  unfolding price_of currency_of
  new_usage id now input = record {
    id = id;
    event_id = input.event_id;
    supplier_id = input.supplier_id;
    brand_id = or_null input.brand_id;
    predicate_id = input.predicate_id;
    receipt_id = input.receipt_id;
    verified_at = input.verified_at;
    price_per_verification = price_of (get_predicate registry (text input.predicate_id));
    currency = currency_of (get_predicate registry (text input.predicate_id));
    recorded_at = now;
  }

abbrev pub violates_unique : Usages → (id event_id : String) → Bool
violates_unique rows id event_id = any (λ u. u.id == id || u.event_id == event_id) rows

module _ (registry : Registry) where
  unfoldable pub record_usage :
      (id : String) (now : ℕ) → RecordUsageRequest → Usages → Result VerificationUsage × Usages
  record_usage id now input rows =
      if violates_unique rows id input.event_id
      then (err "duplicate key value violates unique constraint", rows)
      else (ok (new_usage registry id now input), rows ++ new_usage registry id now input ∷ [])

  -- The request that the subscriber makes of an event.
  unfoldable pub request_of : VerificationEvent → RecordUsageRequest
  request_of event = record {
    event_id = event.event_id;
    supplier_id = event.payload.supplier_id;
    brand_id = some event.payload.requester_id;
    predicate_id = canonical_id event.payload.predicate_id;
    receipt_id = event.payload.receipt_id;
    verified_at = event.timestamp;
  }

  -- The handler of one delivery; it catches the error of `recordUsage`, so the bus acknowledges the
  -- message in any case.
  unfoldable pub on_event : (id : String) (now : ℕ) → VerificationEvent → Usages → Usages
  on_event id now event rows = (record_usage id now (request_of event) rows).1

abbrev at_least : Option ℕ → ℕ → Bool
at_least none t = true
at_least (some start) t = leb start t

abbrev before : Option ℕ → ℕ → Bool
before none t = true
before (some end) t = ltb t end

-- The WHERE clause of `getUsageBySupplier`; the bounds are optional.
abbrev pub is_selected : String → (start end : Option ℕ) → VerificationUsage → Bool
is_selected supplier_id start end u =
    u.supplier_id == supplier_id && (at_least start u.verified_at && before end u.verified_at)

-- The rows, before ORDER BY.
unfoldable pub get_usage_by_supplier : String → (start end : Option ℕ) → Usages → Usages
get_usage_by_supplier supplier_id start end rows = filter (is_selected supplier_id start end) rows
