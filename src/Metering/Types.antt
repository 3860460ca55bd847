-- ===== src/Metering/Types.antt =====
-- services/metering-billing/src/types.ts, with the constraints of infra/docker/init-db. Amounts of
-- rows are in ten-thousandths of the currency unit, the precision of the DECIMAL columns, and
-- instants are milliseconds.
use zk_dpp_royalty_protocol.Common.{ℕ, String, Option, List}
use zk_dpp_royalty_protocol.Common.Doubles.{plus}
use zk_dpp_royalty_protocol.Predicates.{Currency, ◌⧺◌}

pub record VerificationUsage : Type 0 where
  pub id : String
  pub event_id : String
  pub supplier_id : String
  pub brand_id : Option String
  pub predicate_id : String
  pub receipt_id : String
  pub verified_at : ℕ
  pub price_per_verification : ℕ
  pub currency : Currency
  pub recorded_at : ℕ

-- A value that JavaScript holds for an amount: a number (a double, as Common/Doubles writes it), or
-- the text that a database driver returns for a DECIMAL column.
pub data Amount : Type 0 where
  num : ℕ → Amount
  txt : String → Amount

-- `a + b`: numbers are added and rounded, and with a text on either side the texts are joined.
-- `show` is the text that `String(…)` makes of a number.
abbrev pub add : (ℕ → String) → Amount → Amount → Amount
add show (num a) (num b) = num (plus a b)
add show (num a) (txt t) = txt (show a ⧺ t)
add show (txt s) (num b) = txt (s ⧺ show b)
add show (txt s) (txt t) = txt (s ⧺ t)

pub record SettlementBreakdown : Type 0 where
  pub predicate_id : String
  pub predicate_name : String
  pub brand_id : Option String
  pub verification_count : ℕ
  pub price_per_verification : Amount
  pub subtotal : Amount

pub data Status : Type 0 where
  draft finalized paid : Status

pub data BlockchainStatus : Type 0 where
  not_submitted pending submitted chain_finalized disputed chain_paid failed : BlockchainStatus

-- A row of `metering.settlement_statements`, with the columns of
-- `SettlementStatementWithBlockchain`.
pub record SettlementStatement : Type 0 where
  pub id : String
  pub supplier_id : String
  pub period_start : ℕ
  pub period_end : ℕ
  pub total_verifications : ℕ
  pub total_amount : ℕ
  pub currency : Currency
  pub breakdown : List SettlementBreakdown
  pub status : Status
  pub created_at : ℕ
  pub finalized_at : Option ℕ
  pub supplier_wallet : Option String
  -- the column is not null: it has the default NOT_SUBMITTED
  pub blockchain_status : BlockchainStatus
  pub tx_hash : Option String
  pub block_number : Option ℕ
  pub chain_submitted_at : Option ℕ
  pub chain_finalized_at : Option ℕ

pub record SupplierWallet : Type 0 where
  pub supplier_id : String
  pub wallet_address : String
  pub created_at : ℕ

pub record RecordUsageRequest : Type 0 where
  pub event_id : String
  pub supplier_id : String
  pub brand_id : Option String
  pub predicate_id : String
  pub receipt_id : String
  pub verified_at : ℕ

pub record GenerateStatementRequest : Type 0 where
  pub supplier_id : String
  pub period_start : ℕ
  pub period_end : ℕ
