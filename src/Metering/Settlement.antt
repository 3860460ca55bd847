-- ===== src/Metering/Settlement.antt =====
-- The rows of `metering.settlement_statements` and `metering.supplier_wallets`: the queries of
-- services/metering-billing/src/db/index.ts on them, and the handlers of routes/settlements.ts that
-- read or finalize a statement.
pub mod Rows
pub mod Wallets
mod Tests
use zk_dpp_royalty_protocol.Common.{
  ℕ, String, Bool, true, false, Option, none, some, List, [], ◌∷◌, ◌==◌, truthy, filter, map,
  if◌then◌else◌,
}
use zk_dpp_royalty_protocol.Common.JsMap
use zk_dpp_royalty_protocol.Metering.Types.{
  Status, draft, finalized, paid, BlockchainStatus, chain_finalized, SettlementStatement,
  SupplierWallet,
}

abbrev pub Statements : Type 0
Statements = List SettlementStatement

abbrev pub is_draft : Status → Bool
is_draft draft = true
is_draft _ = false

-- WHERE id = $1: the first row
unfoldable pub find : String → Statements → Option SettlementStatement
find id [] = none
find id (st ∷ sts) = if st.id == id then some st else find id sts

-- UPDATE … WHERE id = $1
abbrev pub update_row :
    String → (SettlementStatement → SettlementStatement) → SettlementStatement → SettlementStatement
update_row id f st = if st.id == id then f st else st

unfoldable pub update :
    String → (SettlementStatement → SettlementStatement) → Statements → Statements
update id f sts = map (update_row id f) sts

abbrev pub get_statement : String → Statements → Option SettlementStatement
get_statement id sts = find id sts

-- The rows, before ORDER BY.
pub get_statements_by_supplier : String → Statements → Statements
get_statements_by_supplier supplier_id sts = filter (λ st. st.supplier_id == supplier_id) sts

-- SET status = 'FINALIZED', finalized_at = $2 … AND status = 'DRAFT'
unfoldable pub finalize_row : (now : ℕ) → SettlementStatement → SettlementStatement
finalize_row now st =
    if is_draft st.status then record st { status = finalized; finalized_at = some now } else st

abbrev returned : (now : ℕ) → Option SettlementStatement → Option SettlementStatement
returned now none = none
returned now (some st) = if is_draft st.status then some (finalize_row now st) else none

unfoldable pub finalize_statement :
    String → (now : ℕ) → Statements → Option SettlementStatement × Statements
finalize_statement id now sts = (returned now (find id sts), update id (finalize_row now) sts)

pub record StatementReply : Type 0 where
  pub code : ℕ
  pub success : Bool
  pub statement : Option SettlementStatement
  pub error : Option String

abbrev reply_of : Option SettlementStatement → StatementReply
reply_of none = record {
  code = 404;
  success = false;
  statement = none;
  error = some "Statement not found or already finalized";
}
reply_of (some st) = record { code = 200; success = true; statement = some st; error = none }

-- POST /settlements/:id/finalize
unfoldable pub post_finalize : String → (now : ℕ) → Statements → StatementReply × Statements
post_finalize id now sts =
    let (found, sts') = finalize_statement id now sts in (reply_of found, sts')

-- COALESCE(blockchain_status, 'NOT_SUBMITTED'): the column has a default and is never set to null.
abbrev pub get_statement_with_blockchain : String → Statements → Option SettlementStatement
get_statement_with_blockchain id sts = find id sts

-- `if (supplierWallet)` adds the column to the UPDATE.
abbrev pub wallet_after : Option String → Option String → Option String
wallet_after none old = old
wallet_after (some w) old = if truthy w then some w else old

unfoldable pub set_status :
    BlockchainStatus → Option String → SettlementStatement → SettlementStatement
set_status status wallet st = record st {
  blockchain_status = status;
  supplier_wallet = wallet_after wallet st.supplier_wallet;
}

abbrev pub update_blockchain_status :
    String → BlockchainStatus → Option String → Statements → Statements
update_blockchain_status id status wallet sts = update id (set_status status wallet) sts

pub record TxResult : Type 0 where
  pub hash : String
  pub block_number : ℕ

unfoldable pub set_submission :
    TxResult → BlockchainStatus → (now : ℕ) → SettlementStatement → SettlementStatement
set_submission tx status now st = record st {
  blockchain_status = status;
  tx_hash = some tx.hash;
  block_number = some tx.block_number;
  chain_submitted_at = some now;
}

abbrev pub update_blockchain_submission :
    String → TxResult → BlockchainStatus → (now : ℕ) → Statements → Statements
update_blockchain_submission id tx status now sts = update id (set_submission tx status now) sts

-- The transaction of the finalization is an argument that the query does not use.
unfoldable pub set_finalization : (now : ℕ) → SettlementStatement → SettlementStatement
set_finalization now st = record st {
  blockchain_status = chain_finalized;
  chain_finalized_at = some now;
  status = paid;
}

abbrev pub update_blockchain_finalization : String → TxResult → (now : ℕ) → Statements → Statements
update_blockchain_finalization id tx now sts = update id (set_finalization now) sts

abbrev pub Wallets : Type 0
Wallets = List (String × SupplierWallet)

module _ (lower : String → String) where
  abbrev wallet_row : String → String → (now : ℕ) → Option SupplierWallet → SupplierWallet
  wallet_row supplier_id address now none = record {
    supplier_id = supplier_id;
    wallet_address = lower address;
    created_at = now;
  }
  wallet_row supplier_id address now (some w) = record w { wallet_address = lower address }

  -- INSERT … ON CONFLICT (supplier_id) DO UPDATE SET wallet_address = $2 RETURNING *
  pub register_supplier_wallet : String → String → (now : ℕ) → Wallets → SupplierWallet × Wallets
  register_supplier_wallet supplier_id address now ws =
      let w = wallet_row supplier_id address now (JsMap.get supplier_id ws) in
      (w, JsMap.set supplier_id w ws)

abbrev pub get_supplier_wallet : String → Wallets → Option SupplierWallet
get_supplier_wallet supplier_id ws = JsMap.get supplier_id ws
