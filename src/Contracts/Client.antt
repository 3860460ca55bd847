-- ===== src/Contracts/Client.antt =====
-- packages/contracts/src/client.ts: the methods of `ZKDPPContractClient`. `Number(…)` of an answer
-- is the answer: durations and basis points are far below 2 ^ 53, where it is exact.
use Prim.Native.String
use zk_dpp_royalty_protocol.Common.{
  ℕ, ◌*◌, String, Bool, false, ◌&&◌, Option, none, some, [], ◌∷◌, eqb, is_some, or_else,
  if◌then◌else◌,
}
use zk_dpp_royalty_protocol.Common.Results.{Result, ok, err}
use zk_dpp_royalty_protocol.Common.Exec.{Exec, ◌>>=◌, ◌>>◌, lift}
use zk_dpp_royalty_protocol.Shared.Auth.{strip_prefix}
use zk_dpp_royalty_protocol.Contracts.Types.{
  StatementStatus, no_status, submitted, disputed, finalized, paid, Statement, StatementSubmission,
  VerificationRecord, FeeBreakdown, Receipt, TransactionResult, GasEstimate, ContractAddresses,
  ClientConfig, Contract, ContractCall, submit_statement, finalize_statement, dispute_statement,
  claim_payment, deposit, record_verification, approve, Transaction, TransactionResponse,
  StatementStruct, JsNumber, number, bigint, FeeData, Ethers, Client, World,
}

abbrev pub status_number : StatementStatus → ℕ
status_number no_status = 0
status_number submitted = 1
status_number disputed = 2
status_number finalized = 3
status_number paid = 4

-- `value === n` for a number n
abbrev pub is_strictly : JsNumber → ℕ → Bool
is_strictly (number m) n = eqb m n
is_strictly (bigint m) n = false

-- `Number(value)`
abbrev pub to_number : JsNumber → ℕ
to_number (number m) = m
to_number (bigint m) = m

-- `value.startsWith('0x')`
abbrev pub starts_with_0x : String → Bool
starts_with_0x value = is_some (strip_prefix "0x" value)

abbrev pub reader : String → Contract
reader address = record { address = address; runner = none }

abbrev pub signed : Option String → Contract → Contract
signed signer contract = record contract { runner = signer }

abbrev pub signer_required : String
signer_required = "Signer required for write operations. Call connect() first."

-- The constructor.
unfoldable pub new_client : ClientConfig → Client
new_client config = record {
  signer = none;
  addresses = config.addresses;
  chain_id = config.chain_id;
  settlement_contract = reader config.addresses.settlement;
  escrow_contract = reader config.addresses.escrow;
  distributor_contract = reader config.addresses.distributor;
  usdc_contract = reader config.addresses.usdc;
}

unfoldable pub connected : (signer : String) → Client → Client
connected signer client = record client {
  signer = some signer;
  settlement_contract = signed (some signer) client.settlement_contract;
  escrow_contract = signed (some signer) client.escrow_contract;
  distributor_contract = signed (some signer) client.distributor_contract;
  usdc_contract = signed (some signer) client.usdc_contract;
}

unfoldable pub connect : (signer : String) → Exec World (Unit {0})
connect signer w = (ok tt, record w { client = connected signer w.client })

unfoldable pub require_signer : Exec World (Unit {0})
require_signer w = (if is_some w.client.signer then ok tt else err signer_required, w)

abbrev pub result_of : (hash : String) → Option Receipt → Result TransactionResult
result_of hash none = err "Transaction failed"
result_of hash (some receipt) = ok (record {
  hash = hash;
  receipt = receipt;
  block_number = receipt.block_number;
  gas_used = receipt.gas_used;
})

module _ (ethers : Ethers) where
  unfoldable pub connect_with_key : (private_key : String) → Exec World (Unit {0})
  connect_with_key private_key = do signer ← lift (ethers.wallet private_key); connect signer

  unfoldable pub to_bytes32 : String → String
  to_bytes32 value =
      if starts_with_0x value && eqb (String.len value) 66
      then value
      else ethers.keccak256_utf8 value

  unfoldable pub hash_bytes : String → String
  hash_bytes hash = if starts_with_0x hash then hash else to_bytes32 hash

  -- The call of a contract's method as a transaction. It is recorded as handed to ethers, which may
  -- refuse it before anything is broadcast.
  unfoldable pub send : (Client → Contract) → ContractCall → Exec World TransactionResponse
  send contract call w =
      let tx : Transaction = record { contract = contract w.client; call = call } in
      (ethers.send w.sent tx, record w { sent = tx ∷ w.sent })

  -- The end of every write method: the call, `wait` and the test of the receipt.
  unfoldable pub transact : (Client → Contract) → ContractCall → Exec World TransactionResult
  transact contract call = do
    tx ← send contract call
    receipt ← lift tx.wait
    lift (result_of tx.hash receipt)

  unfoldable pub submit : StatementSubmission → Exec World TransactionResult
  submit s = do
    require_signer
    amount ← lift (ethers.big_int s.total_amount)
    transact (λ c. c.settlement_contract)
        (submit_statement (to_bytes32 s.statement_id) s.supplier amount
          (hash_bytes s.statement_hash))

  unfoldable pub finalize : (statement_id : String) → Exec World TransactionResult
  finalize statement_id = do
    require_signer
    transact (λ c. c.settlement_contract) (finalize_statement (to_bytes32 statement_id))

  unfoldable pub dispute : (statement_id reason : String) → Exec World TransactionResult
  dispute statement_id reason = do
    require_signer
    transact (λ c. c.settlement_contract) (dispute_statement (to_bytes32 statement_id) reason)

  unfoldable pub claim : Exec World TransactionResult
  claim = do require_signer; transact (λ c. c.settlement_contract) claim_payment

  unfoldable pub deposit_usdc : (amount : String) → Exec World TransactionResult
  deposit_usdc amount = do
    require_signer
    n ← lift (ethers.big_int amount)
    transact (λ c. c.escrow_contract) (deposit n)

  unfoldable pub record_receipt : VerificationRecord → Exec World TransactionResult
  record_receipt r = do
    require_signer
    amount ← lift (ethers.big_int r.amount)
    transact (λ c. c.escrow_contract)
        (record_verification r.brand r.supplier amount (to_bytes32 r.receipt_id))

  unfoldable pub approve_usdc : (spender amount : String) → Exec World TransactionResult
  approve_usdc spender amount = do
    require_signer
    n ← lift (ethers.big_int amount)
    transact (λ c. c.usdc_contract) (approve spender n)

  -- What `getStatement` makes of the contract's answer.
  abbrev pub statement_of : Result StatementStruct → Result (Option Statement)
  statement_of (err e) = err e
  statement_of (ok stmt) =
      if is_strictly stmt.status (status_number no_status)
      then ok none
      else ok (
          some (record {
            statement_hash = stmt.statement_hash;
            supplier = stmt.supplier;
            total_amount = stmt.total_amount;
            submitted_at = stmt.submitted_at;
            finalized_at = stmt.finalized_at;
            status = to_number stmt.status;
          }))

  -- The reads, which ask the client `c`.
  module _ (c : Client) where
    unfoldable pub get_statement : (statement_id : String) → Result (Option Statement)
    get_statement statement_id =
        statement_of (ethers.read_statement c.settlement_contract (to_bytes32 statement_id))

    abbrev pub show_result : Result ℕ → Result String
    show_result (err e) = err e
    show_result (ok n) = ok (ethers.show n)

    unfoldable pub is_finalizable : (statement_id : String) → Result Bool
    is_finalizable statement_id =
        ethers.read_flag c.settlement_contract "isFinalizable" (to_bytes32 statement_id)

    unfoldable pub get_claimable_balance : (supplier : String) → Result String
    get_claimable_balance supplier =
        show_result (ethers.read_number c.settlement_contract "getClaimableBalance" (supplier ∷ []))

    unfoldable pub get_remaining_dispute_time : (statement_id : String) → Result ℕ
    get_remaining_dispute_time statement_id =
        ethers.read_number c.settlement_contract "getRemainingDisputeTime"
          (to_bytes32 statement_id ∷ [])

    pub get_dispute_window : Result ℕ
    get_dispute_window = ethers.read_number c.settlement_contract "disputeWindow" []

    abbrev gas_estimate : (gas_limit : ℕ) → Result FeeData → Result GasEstimate
    gas_estimate gas_limit (err e) = err e
    gas_estimate gas_limit (ok fees) = ok (record {
      gas_limit = gas_limit;
      gas_price = or_else fees.gas_price 0;
      max_fee_per_gas = fees.max_fee_per_gas;
      max_priority_fee_per_gas = fees.max_priority_fee_per_gas;
      estimated_cost = gas_limit * or_else fees.gas_price 0;
    })

    -- From the call of `estimateGas` on.
    abbrev pub estimate_call : ContractCall → Result GasEstimate
    estimate_call call =
        elim (ethers.estimate_gas (record { contract = c.settlement_contract; call = call })) [
          | err e ↦ err e
          | ok gas_limit ↦ gas_estimate gas_limit ethers.fee_data
        ]

    unfoldable pub estimate_submission_gas : StatementSubmission → Result GasEstimate
    estimate_submission_gas s = elim (ethers.big_int s.total_amount) [
      | err e ↦ err e
      | ok amount ↦ estimate_call (
          submit_statement (to_bytes32 s.statement_id) s.supplier amount
            (hash_bytes s.statement_hash))
    ]

    pub get_brand_balance : (brand : String) → Result String
    get_brand_balance brand =
        show_result (ethers.read_number c.escrow_contract "getBrandBalance" (brand ∷ []))

    pub get_supplier_pending_total : (supplier : String) → Result String
    get_supplier_pending_total supplier =
        show_result (ethers.read_number c.escrow_contract "getSupplierPendingTotal" (supplier ∷ []))

    pub is_receipt_recorded : (receipt_id : String) → Result Bool
    is_receipt_recorded receipt_id =
        ethers.read_flag c.escrow_contract "isReceiptRecorded" (to_bytes32 receipt_id)

    abbrev to_breakdown : Result (ℕ × ℕ × ℕ) → Result FeeBreakdown
    to_breakdown (err e) = err e
    to_breakdown (ok (supplier_amount, protocol_fee, gateway_fee)) = ok (record {
      supplier_amount = supplier_amount;
      protocol_fee = protocol_fee;
      gateway_fee = gateway_fee;
    })

    pub calculate_fees : (total_amount : String) → Result FeeBreakdown
    calculate_fees total_amount = elim (ethers.big_int total_amount) [
      | err e ↦ err e
      | ok amount ↦ to_breakdown (ethers.read_fee_breakdown c.distributor_contract amount)
    ]

    -- (protocolFeeBps, gatewayFeeBps)
    pub get_fees : Result (ℕ × ℕ)
    get_fees = ethers.read_fees c.distributor_contract

    pub get_accumulated_protocol_fees : Result String
    get_accumulated_protocol_fees =
        show_result (ethers.read_number c.distributor_contract "getAccumulatedProtocolFees" [])

    pub get_accumulated_gateway_fees : (gateway : String) → Result String
    get_accumulated_gateway_fees gateway =
        show_result
          (ethers.read_number c.distributor_contract "getAccumulatedGatewayFees" (gateway ∷ []))

    pub get_usdc_balance : (address : String) → Result String
    get_usdc_balance address =
        show_result (ethers.read_number c.usdc_contract "balanceOf" (address ∷ []))

    pub get_usdc_allowance : (owner spender : String) → Result String
    get_usdc_allowance owner spender =
        show_result (ethers.read_number c.usdc_contract "allowance" (owner ∷ spender ∷ []))

    pub get_addresses : ContractAddresses
    get_addresses = c.addresses

    pub get_chain_id : ℕ
    get_chain_id = c.chain_id

    pub get_signer : Option String
    get_signer = c.signer

  pub format_usdc : (amount : ℕ) → String
  format_usdc amount = ethers.format_units amount 6

  abbrev pub parse_usdc : (amount : String) → Result String
  parse_usdc amount = elim (ethers.parse_units amount 6) [
    | err e ↦ err e
    | ok units ↦ ok (ethers.show units)
  ]
