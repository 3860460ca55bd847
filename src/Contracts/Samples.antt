-- ===== src/Contracts/Samples.antt =====
-- An instance of what packages/contracts takes from ethers: numbers are written in unary, every
-- transaction succeeds, and every hash is zero.

use zk_dpp_royalty_protocol.Common.{ℕ, zero, suc, String, true, ◌≡◌, refl, ap, none, some}
use zk_dpp_royalty_protocol.Common.Results.{ok, err}
use zk_dpp_royalty_protocol.Contracts.Types.{ClientConfig, bigint, StatementStruct, Ethers}

abbrev pub unary : ℕ → String
unary zero = ""
unary (suc n) = String.◌∷◌ "1" (unary n)

abbrev pub read_unary : String → ℕ
read_unary String.[] = 0
read_unary (String.◌∷◌ c s) = suc (read_unary s)

abbrev pub zero_hash : String
zero_hash = "0x0000000000000000000000000000000000000000000000000000000000000000"

abbrev pub unknown_statement : StatementStruct
unknown_statement = record {
  statement_hash = zero_hash;
  supplier = "0x00";
  total_amount = 0;
  submitted_at = 0;
  finalized_at = 0;
  status = bigint 0;
}

abbrev pub ethers : Ethers
ethers = record {
  keccak256_utf8 = λ s. zero_hash;
  big_int = λ s. ok (read_unary s);
  show = unary;
  parse_units = λ s d. ok (read_unary s);
  format_units = λ n d. unary n;
  wallet = λ key. ok "0xkey";
  send = λ sent tx.
      ok (record { hash = "0x01"; wait = ok (some (record { block_number = 7; gas_used = 3 })) });
  estimate_gas = λ tx. ok 3;
  fee_data =
      ok (record { gas_price = none; max_fee_per_gas = none; max_priority_fee_per_gas = none });
  read_statement = λ c id. ok unknown_statement;
  read_flag = λ c f id. ok true;
  read_number = λ c f arguments. ok 5;
  read_fee_breakdown = λ c n. err "unread";
  read_fees = λ c. err "unread";
}

pub read_unary-unary : (n : ℕ) → read_unary (unary n) ≡ n
read_unary-unary zero = refl
read_unary-unary (suc n) = ap suc (read_unary-unary n)

abbrev pub config : ClientConfig
config = record {
  addresses = record { settlement = "0xa"; escrow = "0xb"; distributor = "0xc"; usdc = "0xd" };
  chain_id = 84532;
  rpc_url = none;
}
