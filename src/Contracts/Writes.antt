-- ===== src/Contracts/Writes.antt =====
-- An abstract session with the contracts, which knows only the signer and what was handed to ethers,
-- and the write methods of packages/contracts/src/client.ts as steps of it.
use zk_dpp_royalty_protocol.Common.{ℕ, String, ◌≡◌, refl, Option, none, some, List, ◌∷◌}
use zk_dpp_royalty_protocol.Common.Results.{Result, ok, err}
use zk_dpp_royalty_protocol.Common.Exec.{Exec, ◌>>=◌, after, lift}
use zk_dpp_royalty_protocol.Contracts.Types.{
  StatementSubmission, VerificationRecord, Receipt, TransactionResult, ContractAddresses,
  ClientConfig, Contract, ContractCall, submit_statement, finalize_statement, dispute_statement,
  claim_payment, deposit, record_verification, approve, Transaction, TransactionResponse, Ethers,
  Client, World,
}
use zk_dpp_royalty_protocol.Contracts.Client.{
  signer_required, signed, reader, require_signer, result_of, to_bytes32, hash_bytes, send,
  transact, submit, finalize, dispute, claim, deposit_usdc, record_receipt, approve_usdc,
}

abbrev pub and_then {ℓ κ} : {A : Type ℓ} {B : Type κ} → Result A → (A → Result B) → Result B
and_then (err e) k = err e
and_then (ok a) k = k a

-- The write methods with their arguments.
pub data Write : Type 0 where
  submits : StatementSubmission → Write
  finalizes : (statement_id : String) → Write
  disputes : (statement_id reason : String) → Write
  claims : Write
  deposits : (amount : String) → Write
  records : VerificationRecord → Write
  approves : (spender amount : String) → Write

pub record Session : Type 0 where
  pub signer : Option String
  pub sent : List Transaction

-- The contract that takes a call.
abbrev pub home : ContractAddresses → ContractCall → String
home a (submit_statement id supplier amount hash) = a.settlement
home a (finalize_statement id) = a.settlement
home a (dispute_statement id reason) = a.settlement
home a claim_payment = a.settlement
home a (deposit amount) = a.escrow
home a (record_verification brand supplier amount receipt_id) = a.escrow
home a (approve spender amount) = a.usdc

module _ (ethers : Ethers) where
  -- The method that the class has for it.
  abbrev pub run_write : Write → Exec World TransactionResult
  run_write (submits s) = submit ethers s
  run_write (finalizes id) = finalize ethers id
  run_write (disputes id reason) = dispute ethers id reason
  run_write claims = claim ethers
  run_write (deposits amount) = deposit_usdc ethers amount
  run_write (records r) = record_receipt ethers r
  run_write (approves spender amount) = approve_usdc ethers spender amount

  -- The call that a write method makes, if its amount is a number.
  abbrev pub call_of : Write → Result ContractCall
  call_of (submits s) = and_then (ethers.big_int s.total_amount) λ amount. ok (
      submit_statement (to_bytes32 ethers s.statement_id) s.supplier amount
        (hash_bytes ethers s.statement_hash))
  call_of (finalizes id) = ok (finalize_statement (to_bytes32 ethers id))
  call_of (disputes id reason) = ok (dispute_statement (to_bytes32 ethers id) reason)
  call_of claims = ok claim_payment
  call_of (deposits amount) = and_then (ethers.big_int amount) λ n. ok (deposit n)
  call_of (records r) =
      and_then (ethers.big_int r.amount) λ amount.
        ok (record_verification r.brand r.supplier amount (to_bytes32 ethers r.receipt_id))
  call_of (approves spender amount) = and_then (ethers.big_int amount) λ n. ok (approve spender n)

  abbrev pub outcome : Result TransactionResponse → Result TransactionResult
  outcome response = and_then response λ tx. and_then tx.wait λ receipt. result_of tx.hash receipt

  abbrev pub transaction_of : ContractAddresses → (signer : String) → ContractCall → Transaction
  transaction_of a signer call = record {
    contract = record { address = home a call; runner = some signer };
    call = call;
  }

  -- A session's answer to a write, and the session after it.
  abbrev pub attempt :
      ContractAddresses → Result ContractCall → Session → Result TransactionResult × Session
  attempt a call s = elim s.signer [
    | none ↦ (err signer_required, s)
    | some signer ↦ elim call [
      | err e ↦ (err e, s)
      | ok c ↦
          let tx = transaction_of a signer c in
          (outcome (ethers.send s.sent tx), record s { sent = tx ∷ s.sent })
    ]
  ]

-- The client of a session: all four contracts send with its signer.
abbrev pub client_of : ClientConfig → Option String → Client
client_of config signer = record {
  signer = signer;
  addresses = config.addresses;
  chain_id = config.chain_id;
  settlement_contract = signed signer (reader config.addresses.settlement);
  escrow_contract = signed signer (reader config.addresses.escrow);
  distributor_contract = signed signer (reader config.addresses.distributor);
  usdc_contract = signed signer (reader config.addresses.usdc);
}

abbrev pub world_of : ClientConfig → Session → World
world_of config s = record { client = client_of config s.signer; sent = s.sent }

abbrev pub embed {ℓ} : {A : Type ℓ} → ClientConfig → A × Session → A × World
embed config (a, s) = (a, world_of config s)

module _ (ethers : Ethers) (config : ClientConfig) (txs : List Transaction) where
  abbrev at : Option String → Session
  at signer = record { signer = signer; sent = txs }

  outcome-embed :
      (response : Result TransactionResponse) (w : World)
      → after (λ tx. lift tx.wait >>= λ receipt. lift (result_of tx.hash receipt)) (response, w)
        ≡ (outcome ethers response, w)
  outcome-embed (err e) w = refl
  outcome-embed (ok tx) w = go tx.wait
    where
      go :
          (receipt : Result (Option Receipt))
          → ◌≡◌ {A = Result TransactionResult × World}
              (after (λ r. lift (result_of tx.hash r)) (receipt, w))
              (and_then receipt λ r. result_of tx.hash r, w)
      go (err e) = refl
      go (ok r) = refl

  module _ (signer : String) (contract : Client → Contract) where
    transact_lem :
        (call : ContractCall)
        → contract (client_of config (some signer))
          ≡ record { address = home config.addresses call; runner = some signer }
        → transact ethers contract call (world_of config (at (some signer)))
          ≡ embed config (attempt ethers config.addresses (ok call) (at (some signer)))
    unfolding transact send
    transact_lem call h = rw h (outcome-embed _ _)

    -- The same, after an argument that may be no number.
    parsed_lem :
        (r : Result ℕ) (call : ℕ → ContractCall)
        → ((n : ℕ)
            → contract (client_of config (some signer))
              ≡ record { address = home config.addresses (call n); runner = some signer })
        → (lift r >>= λ n. transact ethers contract (call n)) (world_of config (at (some signer)))
          ≡ embed config
              (attempt ethers config.addresses (and_then r λ n. ok (call n)) (at (some signer)))
    parsed_lem (err e) call h = refl
    parsed_lem (ok n) call h = transact_lem (call n) (h n)

  -- A write method without a signer throws and sends nothing; with one it throws if its amount is no
  -- number, and else sends its call once, from that signer, to the contract of the call, and
  -- returns the receipt or throws.
  pub run_write-attempt :
      (signer : Option String) (write : Write)
      → run_write ethers write (world_of config (at signer))
        ≡ embed config (attempt ethers config.addresses (call_of ethers write) (at signer))
  unfolding require_signer submit finalize dispute claim deposit_usdc record_receipt approve_usdc
  run_write-attempt none (submits s) = refl
  run_write-attempt none (finalizes id) = refl
  run_write-attempt none (disputes id reason) = refl
  run_write-attempt none claims = refl
  run_write-attempt none (deposits amount) = refl
  run_write-attempt none (records r) = refl
  run_write-attempt none (approves spender amount) = refl
  run_write-attempt (some signer) (submits s) = parsed_lem signer _ _ _ (λ n. refl)
  run_write-attempt (some signer) (finalizes id) = transact_lem signer _ _ refl
  run_write-attempt (some signer) (disputes id reason) = transact_lem signer _ _ refl
  run_write-attempt (some signer) claims = transact_lem signer _ _ refl
  run_write-attempt (some signer) (deposits amount) = parsed_lem signer _ _ _ (λ n. refl)
  run_write-attempt (some signer) (records r) = parsed_lem signer _ _ _ (λ n. refl)
  run_write-attempt (some signer) (approves spender amount) = parsed_lem signer _ _ _ (λ n. refl)
