-- ===== src/Metering/Statement.antt =====
-- `generateStatement` of services/metering-billing/src/db/index.ts. What PostgreSQL and its driver
-- do is a record: how a DECIMAL column reads, which values it accepts, and the ORDER BY. The group
-- of a usage is kept in a `Map` under a composed key.
pub mod Totals
pub mod Drivers
pub mod New
mod Tests
use mathlib.Core.List.{foldl}
use zk_dpp_royalty_protocol.Common.{
  ℕ, suc, ◌+◌, String, Bool, ◌&&◌, Option, none, some, List, [], ◌∷◌, ◌++◌, ltb, leb, ◌==◌, filter,
  any, length, or_text, if◌then◌else◌,
}
use zk_dpp_royalty_protocol.Common.JsMap
use zk_dpp_royalty_protocol.Common.Group.{group}
use zk_dpp_royalty_protocol.Common.Results.{Result, ok, err}
use zk_dpp_royalty_protocol.Predicates.{
  Registry, PredicateDefinition, Currency, eur, text, get_predicate, ◌⧺◌,
}
use zk_dpp_royalty_protocol.Metering.Types.{
  VerificationUsage, Amount, num, add, SettlementBreakdown, SettlementStatement,
  GenerateStatementRequest, draft, not_submitted,
}
use zk_dpp_royalty_protocol.Metering.Usage.{Usages}

pub record Driver : Type 0 where
  -- the JavaScript value of a DECIMAL column
  pub read_decimal : ℕ → Amount
  -- what the column holds after an INSERT of a value; `none` if PostgreSQL refuses it
  pub write_decimal : Amount → Option ℕ
  -- `String(n)` of a number
  pub show : ℕ → String
  -- ORDER BY predicate_id, brand_id
  pub order_by : Usages → Usages

unfoldable pub entry_key : VerificationUsage → String
entry_key u = u.predicate_id ⧺ ":" ⧺ or_text u.brand_id "none"

abbrev name_of : Option PredicateDefinition → String → String
name_of none id = id
name_of (some p) id = or_text (some p.name) id

-- `supplier_id = $1 AND verified_at >= $2 AND verified_at < $3`
abbrev pub in_period : GenerateStatementRequest → VerificationUsage → Bool
in_period input u =
    u.supplier_id == input.supplier_id
    && (leb input.period_start u.verified_at && ltb u.verified_at input.period_end)

-- `usages[0]?.currency || 'EUR'`
abbrev pub first_currency : Usages → Currency
first_currency [] = eur
first_currency (u ∷ us) = u.currency

module _ (registry : Registry) (pg : Driver) where
  unfoldable pub new_breakdown : VerificationUsage → SettlementBreakdown
  new_breakdown u = record {
    predicate_id = u.predicate_id;
    predicate_name = name_of (get_predicate registry (text u.predicate_id)) u.predicate_id;
    brand_id = u.brand_id;
    verification_count = 0;
    price_per_verification = pg.read_decimal u.price_per_verification;
    subtotal = num 0;
  }

  unfoldable pub count_usage : VerificationUsage → SettlementBreakdown → SettlementBreakdown
  count_usage u b = record b {
    verification_count = suc b.verification_count;
    subtotal = add pg.show b.subtotal (pg.read_decimal u.price_per_verification);
  }

  -- The loop over the usages, and the values of its map.
  unfoldable pub breakdown_of : Usages → List SettlementBreakdown
  breakdown_of usages = JsMap.values (group entry_key new_breakdown count_usage usages [])

  abbrev pub add_subtotal : Amount → SettlementBreakdown → Amount
  add_subtotal sum b = add pg.show sum b.subtotal

  -- `breakdown.reduce((sum, b) => sum + b.subtotal, 0)`
  unfoldable pub total_of : List SettlementBreakdown → Amount
  total_of breakdown = foldl add_subtotal (num 0) breakdown

  unfoldable pub usages_of : GenerateStatementRequest → Usages → Usages
  usages_of input rows = pg.order_by (filter (in_period input) rows)

  new_statement :
      (id : String) (now : ℕ) → GenerateStatementRequest → Usages → ℕ → SettlementStatement
  new_statement id now input usages total_amount = record {
    id = id;
    supplier_id = input.supplier_id;
    period_start = input.period_start;
    period_end = input.period_end;
    total_verifications = length usages;
    total_amount = total_amount;
    currency = first_currency usages;
    breakdown = breakdown_of usages;
    status = draft;
    created_at = now;
    finalized_at = none;
    supplier_wallet = none;
    blockchain_status = not_submitted;
    tx_hash = none;
    block_number = none;
    chain_submitted_at = none;
    chain_finalized_at = none;
  }

  -- The INSERT is refused if PostgreSQL cannot read the total, or if the identifier is taken.
  pub generate_statement :
      (id : String) (now : ℕ)
      → GenerateStatementRequest
      → Usages
      → List SettlementStatement
      → Result SettlementStatement × List SettlementStatement
  unfolding new_statement
  generate_statement id now input rows statements =
      let usages = usages_of input rows in
      elim (pg.write_decimal (total_of (breakdown_of usages))) [
        | none ↦ (err "invalid input syntax for type numeric", statements)
        | some total ↦
            if any (λ st. st.id == id) statements
            then (err "duplicate key value violates unique constraint", statements)
            else (
              ok (new_statement id now input usages total),
              statements ++ new_statement id now input usages total ∷ [],
            )
      ]
