-- ===== src/Contracts/Types.antt =====
-- packages/contracts/src/types.ts, the fields of the client, and what it takes from ethers.
use zk_dpp_royalty_protocol.Common.{ℕ, String, Bool, Option, List}
use zk_dpp_royalty_protocol.Common.Results.{Result}

pub data StatementStatus : Type 0 where
  no_status submitted disputed finalized paid : StatementStatus

pub record Statement : Type 0 where
  pub statement_hash : String
  pub supplier : String
  pub total_amount : ℕ
  pub submitted_at : ℕ
  pub finalized_at : ℕ
  -- `Number(stmt.status)`
  pub status : ℕ

pub record StatementSubmission : Type 0 where
  pub statement_id : String
  pub supplier : String
  pub total_amount : String
  pub statement_hash : String

pub record VerificationRecord : Type 0 where
  pub brand : String
  pub supplier : String
  pub amount : String
  pub receipt_id : String

pub record FeeBreakdown : Type 0 where
  pub supplier_amount : ℕ
  pub protocol_fee : ℕ
  pub gateway_fee : ℕ

pub record Receipt : Type 0 where
  pub block_number : ℕ
  pub gas_used : ℕ

pub record TransactionResult : Type 0 where
  pub hash : String
  pub receipt : Receipt
  pub block_number : ℕ
  pub gas_used : ℕ

pub record GasEstimate : Type 0 where
  pub gas_limit : ℕ
  pub gas_price : ℕ
  pub max_fee_per_gas : Option ℕ
  pub max_priority_fee_per_gas : Option ℕ
  pub estimated_cost : ℕ

pub record ContractAddresses : Type 0 where
  pub settlement : String
  pub escrow : String
  pub distributor : String
  pub usdc : String

pub record ClientConfig : Type 0 where
  pub addresses : ContractAddresses
  pub chain_id : ℕ
  pub rpc_url : Option String

-- A `Contract` of ethers: its address, and the signer it sends with (`none` for the provider).
pub record Contract : Type 0 where
  pub address : String
  pub runner : Option String

-- The calls that are transactions, with their arguments.
pub data ContractCall : Type 0 where
  submit_statement : (id supplier : String) (amount : ℕ) (hash : String) → ContractCall
  finalize_statement : (id : String) → ContractCall
  dispute_statement : (id reason : String) → ContractCall
  claim_payment : ContractCall
  deposit : (amount : ℕ) → ContractCall
  record_verification : (brand supplier : String) (amount : ℕ) (receipt_id : String) → ContractCall
  approve : (spender : String) (amount : ℕ) → ContractCall

pub record Transaction : Type 0 where
  pub contract : Contract
  pub call : ContractCall

-- What a transaction's call answers: its hash, and the outcome of `wait`.
pub record TransactionResponse : Type 0 where
  pub hash : String
  pub wait : Result (Option Receipt)

-- A number as JavaScript holds it: `===` tells the two kinds apart.
pub data JsNumber : Type 0 where
  number bigint : ℕ → JsNumber

-- The struct that the contract's `getStatement` returns.
pub record StatementStruct : Type 0 where
  pub statement_hash : String
  pub supplier : String
  pub total_amount : ℕ
  pub submitted_at : ℕ
  pub finalized_at : ℕ
  pub status : JsNumber

pub record FeeData : Type 0 where
  pub gas_price : Option ℕ
  pub max_fee_per_gas : Option ℕ
  pub max_priority_fee_per_gas : Option ℕ

-- The functions of ethers and of the contracts behind it. `send` may answer by all transactions
-- that were handed to it before; a read names the contract, its method and the arguments.
pub record Ethers : Type 0 where
  pub keccak256_utf8 : String → String
  pub big_int : String → Result ℕ
  pub show : ℕ → String
  pub parse_units : (amount : String) (decimals : ℕ) → Result ℕ
  pub format_units : (amount : ℕ) (decimals : ℕ) → String
  -- the address of `new Wallet(privateKey, provider)`
  pub wallet : String → Result String
  pub send : List Transaction → Transaction → Result TransactionResponse
  pub estimate_gas : Transaction → Result ℕ
  pub fee_data : Result FeeData
  pub read_statement : Contract → (id : String) → Result StatementStruct
  pub read_flag : Contract → (method id : String) → Result Bool
  pub read_number : Contract → (method : String) (arguments : List String) → Result ℕ
  pub read_fee_breakdown : Contract → (amount : ℕ) → Result (ℕ × ℕ × ℕ)
  pub read_fees : Contract → Result (ℕ × ℕ)

pub record Client : Type 0 where
  pub signer : Option String
  pub addresses : ContractAddresses
  pub chain_id : ℕ
  pub settlement_contract : Contract
  pub escrow_contract : Contract
  pub distributor_contract : Contract
  pub usdc_contract : Contract

-- The client, and the transactions that were handed to ethers to be sent, the latest first.
pub record World : Type 0 where
  pub client : Client
  pub sent : List Transaction
