-- ===== src/Metering/Chain/Contract.antt =====
-- The routes of services/metering-billing/src/routes/blockchain.ts with the client of
-- packages/contracts: a request's `Client` filled by the client's methods.
use zk_dpp_royalty_protocol.Common.{
  ℕ, String, ◌≡◌, refl, sym, ◌∙◌, ap, Option, none, some, [], List, ◌∷◌,
}
use zk_dpp_royalty_protocol.Common.Results.{Result, ok, err}
use zk_dpp_royalty_protocol.Metering.Types.{SettlementStatement}
use zk_dpp_royalty_protocol.Metering.Settlement.{TxResult, find}
use zk_dpp_royalty_protocol.Metering.Chain.{
  Client, Submission, Request, Faults, World, done, submission_of, submit_on_chain,
}
use zk_dpp_royalty_protocol.Metering.Chain.Called.{submit_on_chain-IsCalled}
use zk_dpp_royalty_protocol.Contracts.Types.{
  ClientConfig, Ethers, StatementSubmission, Transaction, TransactionResult, submit_statement,
}
use zk_dpp_royalty_protocol.Contracts.Client.{
  is_finalizable, get_remaining_dispute_time, submit, finalize, parse_usdc, to_bytes32, hash_bytes,
}
use zk_dpp_royalty_protocol.Contracts.Writes.{
  Session, and_then, world_of, embed, attempt, transaction_of, outcome, run_write-attempt, submits,
}

-- The fields that the routes read of a transaction's result.
abbrev pub tx_of : TransactionResult → TxResult
tx_of r = record { hash = r.hash; block_number = r.block_number }

-- How the text of an amount and the hash of a row are made.
pub record Texts : Type 0 where
  pub amount_text : ℕ → String
  pub hash_of : SettlementStatement → String

abbrev pub to_submission : Ethers → Submission → StatementSubmission
to_submission ethers s = record {
  statement_id = s.statement_id;
  supplier = s.supplier;
  total_amount = ethers.show s.total_amount;
  statement_hash = s.statement_hash;
}

-- What `connectWithKey` leaves of a new client, as a session.
abbrev pub first_session : Result String → Result (Unit {0}) × Session
first_session (err e) = (err e, record { signer = none; sent = [] })
first_session (ok signer) = (ok tt, record { signer = some signer; sent = [] })

-- The module variable `contractClient` is an argument and part of the result, as a session: it is
-- set before the key is connected, so that a bad key leaves a client without a signer in it.
unfoldable pub get_contract_client :
    Ethers → (private_key : String) → Option Session → Result (Unit {0}) × Session
get_contract_client ethers private_key none = first_session (ethers.wallet private_key)
get_contract_client ethers private_key (some s) = (ok tt, s)

-- The client of one request.
unfoldable pub contract_client :
    Ethers → Texts → ClientConfig → (private_key : String) → Option Session → Client
contract_client ethers texts config private_key cached =
    let s = (get_contract_client ethers private_key cached).1 in
    record {
      connect = (get_contract_client ethers private_key cached).0;
      statement_hash = texts.hash_of;
      parse_usdc = λ amount.
          and_then (parse_usdc ethers (texts.amount_text amount)) λ units. ethers.big_int units;
      submit_statement = λ sub.
          and_then (submit ethers (to_submission ethers sub) (world_of config s)).0
            λ r. ok (tx_of r);
      is_finalizable = λ id. is_finalizable ethers (world_of config s).client id;
      remaining_dispute_time =
          λ id. get_remaining_dispute_time ethers (world_of config s).client id;
      finalize_statement =
          λ id. and_then (finalize ethers id (world_of config s)).0 λ r. ok (tx_of r);
      show = ethers.show;
    }

module _ (ethers : Ethers) (config : ClientConfig) (s : Session) where
  -- The transaction of a submission in the session.
  abbrev pub transaction : (signer : String) → Submission → Transaction
  transaction signer sub = transaction_of ethers config.addresses signer (
      submit_statement (to_bytes32 ethers sub.statement_id) sub.supplier sub.total_amount
        (hash_bytes ethers sub.statement_hash))

  -- The session sent the transaction, and got the receipt that `tx` is read from.
  abbrev pub IsSent : Submission → TxResult → Type 0
  IsSent sub tx =
      (signer : String) × (s.signer ≡ some signer)
      × ((submit ethers (to_submission ethers sub) (world_of config s)).1
          ≡ world_of config (record s { sent = transaction signer sub ∷ s.sent }))
      × (r : TransactionResult) × (outcome ethers (ethers.send s.sent (transaction signer sub))
          ≡ ok r)
      × (tx ≡ tx_of r)

module _ (ethers : Ethers) (texts : Texts) (config : ClientConfig) (key : String) where
  abbrev at : Option String → List Transaction → Session
  at signer sent = record { signer = signer; sent = sent }

  module _ (law : (n : ℕ) → ethers.big_int (ethers.show n) ≡ ok n) (sub : Submission)
      (tx : TxResult) where
    submit_lem :
        (s : Session)
        → submit ethers (to_submission ethers sub) (world_of config s)
          ≡ embed config (
              attempt ethers config.addresses
                (ok (
                  submit_statement
                    (to_bytes32 ethers sub.statement_id)
                    sub.supplier
                    sub.total_amount
                    (hash_bytes ethers sub.statement_hash)))
                s)
    submit_lem s =
        run_write-attempt ethers config s.sent s.signer (submits (to_submission ethers sub))
        ∙ rw (law sub.total_amount) refl

    got-IsSent :
        (signer : String) (sent : List Transaction) (r : Result TransactionResult)
        → outcome ethers
            (ethers.send sent (transaction ethers config (at (some signer) sent) signer sub))
          ≡ r
        → and_then r (λ x. ok (tx_of x)) ≡ ok tx
        → IsSent ethers config (at (some signer) sent) sub tx
    got-IsSent signer sent (err e) h a = absurd (cc a)
    got-IsSent signer sent (ok r) h a =
        (signer, refl, ap (λ x. x.1) (submit_lem (at (some signer) sent)), r, h, cc a)

    signed-IsSent :
        (signer : Option String) (sent : List Transaction)
        → and_then
            (submit ethers (to_submission ethers sub) (world_of config (at signer sent))).0
            (λ r. ok (tx_of r))
          ≡ ok tx
        → IsSent ethers config (at signer sent) sub tx
    signed-IsSent none sent a =
        absurd
          (cc (sym (ap (λ x. and_then x.0 (λ r. ok (tx_of r))) (submit_lem (at none sent))) ∙ a))
    signed-IsSent (some signer) sent a =
        got-IsSent signer sent _ refl (
          sym (ap (λ x. and_then x.0 (λ r. ok (tx_of r))) (submit_lem (at (some signer) sent))) ∙ a)

  -- A request whose client is the contract client: if a submission is answered with a transaction,
  -- and BigInt reads back the text of a number, then the client has a signer and sent from it, to
  -- the settlement contract, the statement's identifier as `toBytes32` makes it, the wallet, the
  -- amount in units of USDC and the hash of the row; and the answer is read from the receipt.
  pub submit_on_chain-IsSent :
      (cached : Option Session) (faults : Faults) (now : ℕ) (id wallet : String) (w : World)
      (tx : TxResult)
      → ((n : ℕ) → ethers.big_int (ethers.show n) ≡ ok n)
      → let client = contract_client ethers texts config key cached in
        let req : Request = record { client = client; faults = faults; now = now } in
        let s = (get_contract_client ethers key cached).1 in
        (submit_on_chain req id wallet w).0 ≡ ok (done tx)
        → (st : SettlementStatement) × (amount : ℕ) × (find id w.statements ≡ some st)
          × (client.parse_usdc st.total_amount ≡ ok amount)
          × IsSent ethers config s (submission_of req id wallet st amount) tx
  unfolding contract_client
  submit_on_chain-IsSent cached faults now id wallet w tx law a =
      let req : Request = record {
        client = contract_client ethers texts config key cached;
        faults = faults;
        now = now;
      } in
      let s = (get_contract_client ethers key cached).1 in
      let (st, found, (amount, parsed, answered)) = submit_on_chain-IsCalled req id wallet w tx a in
      (
        st,
        amount,
        found,
        parsed,
        signed-IsSent law (submission_of req id wallet st amount) tx s.signer s.sent answered,
      )
