-- ===== src/Metering/Chain/ContractTests.antt =====
-- A submission through the contract client, and the theorem on it applied.
use zk_dpp_royalty_protocol.Common.{ℕ, ◌≡◌, refl, ap, none, some, [], ◌∷◌}
use zk_dpp_royalty_protocol.Common.Results.{ok}
use zk_dpp_royalty_protocol.Predicates.{eur}
use zk_dpp_royalty_protocol.Metering.Types.{SettlementStatement, finalized, not_submitted}
use zk_dpp_royalty_protocol.Metering.Settlement.{find}
use zk_dpp_royalty_protocol.Metering.Chain.{
  Request, World, send, submission_of, check_and_submit, try_submit, submit_on_chain,
}
use zk_dpp_royalty_protocol.Metering.Chain.{submit as submit_row}
use zk_dpp_royalty_protocol.Metering.Chain.Success.{no_faults}
use zk_dpp_royalty_protocol.Metering.Chain.Contract.{
  Texts, get_contract_client, contract_client, IsSent, submit_on_chain-IsSent,
}
use zk_dpp_royalty_protocol.Contracts.Client.{
  require_signer, transact, to_bytes32, submit, hash_bytes,
}
use zk_dpp_royalty_protocol.Contracts.Client.{send as send_call}
use zk_dpp_royalty_protocol.Contracts.Samples.{ethers, config, unary, read_unary-unary}

abbrev row : SettlementStatement
row = record {
  id = "st-1";
  supplier_id = "s-1";
  period_start = 100;
  period_end = 200;
  total_verifications = 2;
  total_amount = 4;
  currency = eur;
  breakdown = [];
  status = finalized;
  created_at = 300;
  finalized_at = some 400;
  supplier_wallet = none;
  blockchain_status = not_submitted;
  tx_hash = none;
  block_number = none;
  chain_submitted_at = none;
  chain_finalized_at = none;
}

abbrev texts : Texts
texts = record { amount_text = unary; hash_of = λ st. "0xaa" }

abbrev world : World
world = record { statements = row ∷ []; submissions = [] }

abbrev req : Request
req = record {
  client = contract_client ethers texts config "k" none;
  faults = no_faults;
  now = 500;
}

submit_on_chain-IsSent_example :
    (st : SettlementStatement) × (amount : ℕ) × (find "st-1" world.statements ≡ some st)
    × (req.client.parse_usdc st.total_amount ≡ ok amount)
    × IsSent ethers config
        (get_contract_client ethers "k" none).1
        (submission_of req "st-1" "0xff" st amount)
        (record { hash = "0x01"; block_number = 7 })
unfolding contract_client get_contract_client submit_on_chain try_submit check_and_submit submit_row
    send find submit require_signer transact send_call to_bytes32 submission_of hash_bytes
submit_on_chain-IsSent_example =
    submit_on_chain-IsSent ethers texts config "k" none no_faults 500 "st-1" "0xff" world
      (record { hash = "0x01"; block_number = 7 }) (λ n. ap ok (read_unary-unary n)) refl
