-- ===== src/Metering/Chain/StatusRoutes.antt =====
-- services/metering-billing/src/routes/blockchain.ts: the blockchain status of a statement, and the
-- routes of the suppliers' wallets.
use zk_dpp_royalty_protocol.Common.{
  ℕ, String, Bool, ◌≡◌, refl, ap, Option, none, some, if◌then◌else◌,
}
use zk_dpp_royalty_protocol.Common.Results.{Result, ok, err}
use zk_dpp_royalty_protocol.Metering.Types.{
  SettlementStatement, SupplierWallet, BlockchainStatus, submitted,
}
use zk_dpp_royalty_protocol.Metering.Settlement.{
  TxResult, Statements, Wallets, set_submission, get_statement_with_blockchain,
  register_supplier_wallet, get_supplier_wallet,
}
use zk_dpp_royalty_protocol.Metering.Chain.{
  Client, Request, World, done, is_submitted, submit_on_chain,
}
use zk_dpp_royalty_protocol.Metering.Chain.Success.{submitted_row, submit_on_chain-done}

pub record BlockchainStatusResponse : Type 0 where
  pub statement_id : String
  pub blockchain_status : BlockchainStatus
  pub tx_hash : Option String
  pub block_number : Option ℕ
  pub chain_submitted_at : Option ℕ
  pub chain_finalized_at : Option ℕ
  pub is_finalizable : Option Bool
  pub remaining_dispute_time : Option ℕ

abbrev pub row_response : SettlementStatement → BlockchainStatusResponse
row_response st = record {
  statement_id = st.id;
  blockchain_status = st.blockchain_status;
  tx_hash = st.tx_hash;
  block_number = st.block_number;
  chain_submitted_at = st.chain_submitted_at;
  chain_finalized_at = st.chain_finalized_at;
  is_finalizable = none;
  remaining_dispute_time = none;
}

-- The `try` block: what was asked before an error stays in the response.
abbrev with_time : BlockchainStatusResponse → Result ℕ → BlockchainStatusResponse
with_time response (err e) = response
with_time response (ok remaining) = record response { remaining_dispute_time = some remaining }

abbrev with_flag :
    Client → (id : String) → BlockchainStatusResponse → Result Bool → BlockchainStatusResponse
with_flag client id response (err e) = response
with_flag client id response (ok flag) =
    with_time (record response { is_finalizable = some flag }) (client.remaining_dispute_time id)

abbrev with_chain :
    Client → (id : String) → BlockchainStatusResponse → Result (Unit {0}) → BlockchainStatusResponse
with_chain client id response (err e) = response
with_chain client id response (ok u) = with_flag client id response (client.is_finalizable id)

abbrev status_response : Client → Option SettlementStatement → Option BlockchainStatusResponse
status_response client none = none
status_response client (some st) =
    if is_submitted st.blockchain_status
    then some (with_chain client st.id (row_response st) client.connect)
    else some (row_response st)

-- GET /settlements/:id/blockchain-status; `none` is the answer 404.
unfoldable pub get_blockchain_status :
    Client → (id : String) → Statements → Option BlockchainStatusResponse
get_blockchain_status client id sts = status_response client (get_statement_with_blockchain id sts)

-- The answer of POST /supplier-wallets: the code, and the wallet or the message.
pub data WalletReply : Type 0 where
  registered : (code : ℕ) → SupplierWallet → WalletReply
  not_registered : (code : ℕ) (error : String) → WalletReply

-- POST /supplier-wallets; `fault` is the error of the query, if it has one.
unfoldable pub post_supplier_wallet :
    (lower : String → String) (fault : Option String) (supplier_id wallet_address : String)
    (now : ℕ)
    → Wallets
    → WalletReply × Wallets
post_supplier_wallet lower none supplier_id wallet_address now ws =
    let (wallet, ws') = register_supplier_wallet lower supplier_id wallet_address now ws in
    (registered 201 wallet, ws')
post_supplier_wallet lower (some e) supplier_id wallet_address now ws = (not_registered 400 e, ws)

-- GET /supplier-wallets/:supplierId
pub get_wallet : (supplier_id : String) → Wallets → Option SupplierWallet
get_wallet supplier_id ws = get_supplier_wallet supplier_id ws

-- The response shows the transaction and the time of a submission.
abbrev pub IsShown : TxResult → (now : ℕ) → BlockchainStatusResponse → Type 0
IsShown tx now r =
    (r.blockchain_status ≡ submitted)
    × (r.tx_hash ≡ some tx.hash)
    × (r.block_number ≡ some tx.block_number)
    × (r.chain_submitted_at ≡ some now)

module _ (client : Client) (tx : TxResult) (now : ℕ) where
  with_time-Shown :
      (r : BlockchainStatusResponse) (t : Result ℕ)
      → IsShown tx now r
      → IsShown tx now (with_time r t)
  with_time-Shown r (err e) h = h
  with_time-Shown r (ok remaining) h = h

  with_flag-Shown :
      (id : String) (r : BlockchainStatusResponse) (f : Result Bool)
      → IsShown tx now r
      → IsShown tx now (with_flag client id r f)
  with_flag-Shown id r (err e) h = h
  with_flag-Shown id r (ok flag) h =
      with_time-Shown (record r { is_finalizable = some flag }) (client.remaining_dispute_time id) h

  with_chain-Shown :
      (id : String) (r : BlockchainStatusResponse) (c : Result (Unit {0}))
      → IsShown tx now r
      → IsShown tx now (with_chain client id r c)
  with_chain-Shown id r (err e) h = h
  with_chain-Shown id r (ok u) h = with_flag-Shown id r (client.is_finalizable id) h

-- After a submission that was answered with a transaction, the status route, whatever the contract
-- client answers it, has a response that shows SUBMITTED, that transaction and its time.
pub submitted-IsShown :
    (req : Request) (id wallet : String) (w : World) (tx : TxResult) (client : Client)
    → (submit_on_chain req id wallet w).0 ≡ ok (done tx)
    → (r : BlockchainStatusResponse) × (get_blockchain_status client id
          (submit_on_chain req id wallet w).1.statements
        ≡ some r)
      × IsShown tx req.now r
unfolding get_blockchain_status set_submission
submitted-IsShown req id wallet w tx client a =
    let (st, amount, found, may, sub, here, other) = submit_on_chain-done req id wallet w tx a in
    let row = submitted_row req id wallet w tx st in
    (
      with_chain client row.id (row_response row) client.connect,
      ap (status_response client) here,
      with_chain-Shown client tx req.now row.id (row_response row) client.connect
          (refl, refl, refl, refl),
    )
