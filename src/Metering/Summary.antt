-- ===== src/Metering/Summary.antt =====
-- GET /usage/supplier/:supplierId of services/metering-billing/src/routes/usage.ts. The query's
-- ORDER BY verified_at DESC and `parseFloat` are arguments; amounts are doubles (Common/Doubles); a
-- date of the query string comes with the instant that PostgreSQL reads from it.
pub mod Totals
mod Tests
use mathlib.Core.List.{foldl}
use zk_dpp_royalty_protocol.Common.{ℕ, suc, String, Option, none, some, List, [], length}
use zk_dpp_royalty_protocol.Common.Doubles.{plus}
use zk_dpp_royalty_protocol.Common.JsMap
use zk_dpp_royalty_protocol.Common.Group.{group}
use zk_dpp_royalty_protocol.Predicates.{Currency, ◌⧺◌}
use zk_dpp_royalty_protocol.Metering.Types.{VerificationUsage, Amount, num, txt}
use zk_dpp_royalty_protocol.Metering.Usage.{Usages, get_usage_by_supplier}
use zk_dpp_royalty_protocol.Metering.Statement.{Driver, first_currency}

pub record DateParam : Type 0 where
  pub text : String
  pub instant : ℕ

pub record PredicateUsage : Type 0 where
  pub predicate_id : String
  pub count : ℕ
  pub amount : ℕ

pub record UsageSummary : Type 0 where
  pub supplier_id : String
  pub period : String
  pub total_verifications : ℕ
  pub total_amount : ℕ
  pub currency : Currency
  pub by_predicate : List PredicateUsage

abbrev instant_of : Option DateParam → Option ℕ
instant_of none = none
instant_of (some d) = some d.instant

abbrev period_of : Option DateParam → Option DateParam → String
period_of (some start) (some end) = start.text ⧺ " to " ⧺ end.text
period_of _ _ = "all time"

abbrev predicate_key : VerificationUsage → String
predicate_key u = u.predicate_id

abbrev new_predicate_usage : VerificationUsage → PredicateUsage
new_predicate_usage u = record { predicate_id = u.predicate_id; count = 0; amount = 0 }

module _ (pg : Driver) (order : Usages → Usages) (parse_float : String → ℕ) where
  -- `String(…)`
  abbrev pub string_of : Amount → String
  string_of (num n) = pg.show n
  string_of (txt s) = s

  -- `parseFloat(String(usage.price_per_verification))`
  unfoldable pub parsed_price : VerificationUsage → ℕ
  parsed_price u = parse_float (string_of (pg.read_decimal u.price_per_verification))

  unfoldable pub count_predicate : VerificationUsage → PredicateUsage → PredicateUsage
  count_predicate u p = record p { count = suc p.count; amount = plus p.amount (parsed_price u) }

  -- The loop, for each of its two results.
  unfoldable pub by_predicate_of : Usages → List PredicateUsage
  by_predicate_of usages =
      JsMap.values (group predicate_key new_predicate_usage count_predicate usages [])

  unfoldable pub total_amount_of : Usages → ℕ
  total_amount_of usages = foldl (λ total u. plus total (parsed_price u)) 0 usages

  unfoldable pub get_usage_summary : String → (start end : Option DateParam) → Usages → UsageSummary
  get_usage_summary supplier_id start end rows =
      let usages =
        order (get_usage_by_supplier supplier_id (instant_of start) (instant_of end) rows) in
      record {
        supplier_id = supplier_id;
        period = period_of start end;
        total_verifications = length usages;
        total_amount = total_amount_of usages;
        currency = first_currency usages;
        by_predicate = by_predicate_of usages;
      }
