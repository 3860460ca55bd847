-- ===== src/Metering/Chain.antt =====
-- services/metering-billing/src/routes/blockchain.ts: a statement is submitted to the settlement
-- contract and, after the dispute window, finalized there. The contract client
-- (packages/contracts) and the hash of a statement are an argument of each request, and so are the
-- errors of its queries. The body has passed the schema of the route.
pub mod Cases
pub mod Run
pub mod Once
pub mod Failure
pub mod Success
pub mod Invariant
pub mod Called
pub mod StatusRoutes
pub mod Contract
mod Tests
mod ContractTests
use zk_dpp_royalty_protocol.Common.{
  ℕ, String, Bool, true, false, not, Option, none, some, List, [], ◌∷◌, ◌++◌, if◌then◌else◌,
}
use zk_dpp_royalty_protocol.Common.Results.{Result, ok, err}
use zk_dpp_royalty_protocol.Common.Exec.{Exec, ◌>>=◌, ◌>>◌, pure, lift, caught}
use zk_dpp_royalty_protocol.Predicates.{◌⧺◌}
use zk_dpp_royalty_protocol.Metering.Types.{
  Status, finalized, BlockchainStatus, not_submitted, pending, submitted, chain_finalized, disputed,
  chain_paid, failed, SettlementStatement,
}
use zk_dpp_royalty_protocol.Metering.Settlement.{
  Statements, TxResult, get_statement_with_blockchain, update_blockchain_status,
  update_blockchain_submission, update_blockchain_finalization,
}

-- The argument of the client's `submitStatement`.
pub record Submission : Type 0 where
  pub statement_id : String
  pub supplier : String
  pub total_amount : ℕ
  pub statement_hash : String

-- What the contract client does during one request; `connect` is `getContractClient`.
pub record Client : Type 0 where
  pub connect : Result (Unit {0})
  pub statement_hash : SettlementStatement → String
  pub parse_usdc : ℕ → Result ℕ
  pub submit_statement : Submission → Result TxResult
  pub is_finalizable : String → Result Bool
  pub remaining_dispute_time : String → Result ℕ
  pub finalize_statement : String → Result TxResult
  -- `${remaining}`
  pub show : ℕ → String

-- The error of each query of a request, if it has one.
pub record Faults : Type 0 where
  pub read : Option String
  pub mark_pending : Option String
  pub record_result : Option String
  pub mark_failed : Option String

pub record Request : Type 0 where
  pub client : Client
  pub faults : Faults
  -- the clock when the result is recorded
  pub now : ℕ

pub record ChainReply : Type 0 where
  pub code : ℕ
  pub success : Bool
  pub tx : Option TxResult
  pub error : Option String

-- The rows, and the calls of the contract's `submitStatement` that were made so far.
pub record World : Type 0 where
  pub statements : Statements
  pub submissions : List Submission

abbrev pub refusal : (code : ℕ) → String → ChainReply
refusal code e = record { code = code; success = false; tx = none; error = some e }

abbrev pub done : TxResult → ChainReply
done tx = record { code = 200; success = true; tx = some tx; error = none }

abbrev pub status_text : BlockchainStatus → String
status_text not_submitted = "NOT_SUBMITTED"
status_text pending = "PENDING"
status_text submitted = "SUBMITTED"
status_text chain_finalized = "FINALIZED"
status_text disputed = "DISPUTED"
status_text chain_paid = "PAID"
status_text failed = "FAILED"

abbrev pub is_finalized : Status → Bool
is_finalized finalized = true
is_finalized _ = false

abbrev pub is_not_submitted : BlockchainStatus → Bool
is_not_submitted not_submitted = true
is_not_submitted _ = false

abbrev pub is_submitted : BlockchainStatus → Bool
is_submitted submitted = true
is_submitted _ = false

-- A query that changes rows, or throws.
abbrev pub query : Option String → (Statements → Statements) → Exec World (Unit {0})
query none f = λ w. (ok tt, record w { statements = f w.statements })
query (some e) f = λ w. (err e, w)

-- A query that reads a row, or throws.
abbrev pub select : Option String → String → Exec World (Option SettlementStatement)
select none id = λ w. (ok (get_statement_with_blockchain id w.statements), w)
select (some e) id = λ w. (err e, w)

module _ (req : Request) (id : String) where
  unfoldable pub submission_of : (wallet : String) → SettlementStatement → (amount : ℕ) → Submission
  submission_of wallet st amount = record {
    statement_id = st.id;
    supplier = wallet;
    total_amount = amount;
    statement_hash = req.client.statement_hash st;
  }

  -- The call of the contract, which is made whatever comes of it.
  unfoldable pub send : Submission → Exec World TxResult
  send s = λ w. (req.client.submit_statement s, record w { submissions = w.submissions ++ s ∷ [] })

  -- From the call of `getContractClient` to the end of the `try` block.
  unfoldable pub submit : (wallet : String) → SettlementStatement → Exec World ChainReply
  submit wallet st = do
    _ ← lift req.client.connect
    amount ← lift (req.client.parse_usdc st.total_amount)
    query req.faults.mark_pending (update_blockchain_status id pending (some wallet))
    tx ← send (submission_of wallet st amount)
    query req.faults.record_result (update_blockchain_submission id tx submitted req.now)
    pure (done tx)

  unfoldable pub check_and_submit :
      (wallet : String) → Option SettlementStatement → Exec World ChainReply
  check_and_submit wallet none = pure (refusal 404 "Statement not found")
  check_and_submit wallet (some st) =
      if not (is_finalized st.status)
      then pure (refusal 400 "Statement must be finalized before on-chain submission")
      else if not (is_not_submitted st.blockchain_status)
      then pure (
          refusal 400 (
            "Statement already submitted to blockchain (status: "
            ⧺ status_text st.blockchain_status
            ⧺ ")"))
      else submit wallet st

  -- The `try` block.
  unfoldable pub try_submit : (wallet : String) → Exec World ChainReply
  try_submit wallet = do found ← select req.faults.read id; check_and_submit wallet found

  -- The `catch` block; an error of its own query leaves the handler.
  unfoldable pub catch_submit : String → Exec World ChainReply
  catch_submit e = do
    query req.faults.mark_failed (update_blockchain_status id failed none)
    pure (refusal 500 e)

  -- POST /settlements/:id/submit-on-chain
  unfoldable pub submit_on_chain : (wallet : String) → Exec World ChainReply
  submit_on_chain wallet w = caught catch_submit (try_submit wallet w)

  unfoldable pub finalize : SettlementStatement → Exec World ChainReply
  finalize st = do
    _ ← lift req.client.connect
    ready ← lift (req.client.is_finalizable st.id)
    if ready
        then (do
          tx ← lift (req.client.finalize_statement st.id)
          query req.faults.record_result (update_blockchain_finalization id tx req.now)
          pure (done tx))
        else (do
          remaining ← lift (req.client.remaining_dispute_time st.id)
          pure (
              refusal 400 (
                "Dispute window not passed. " ⧺ req.client.show remaining ⧺ " seconds remaining.")))

  unfoldable pub check_and_finalize : Option SettlementStatement → Exec World ChainReply
  check_and_finalize none = pure (refusal 404 "Statement not found")
  check_and_finalize (some st) =
      if not (is_submitted st.blockchain_status)
      then pure (
          refusal 400 (
            "Statement must be submitted to blockchain first (status: "
            ⧺ status_text st.blockchain_status
            ⧺ ")"))
      else finalize st

  unfoldable pub try_finalize : Exec World ChainReply
  try_finalize = do found ← select req.faults.read id; check_and_finalize found

  -- POST /settlements/:id/finalize-on-chain: its `catch` block only answers.
  unfoldable pub finalize_on_chain : Exec World ChainReply
  finalize_on_chain w = caught (λ e. pure (refusal 500 e)) (try_finalize w)
