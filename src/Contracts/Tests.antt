-- ===== src/Contracts/Tests.antt =====
-- Runs of the contract client on a small instance, and the theorems applied to it.
use zk_dpp_royalty_protocol.Common.{◌≡◌, refl, some, List, [], ◌∷◌, All, length}
use zk_dpp_royalty_protocol.Common.Results.{ok}
use zk_dpp_royalty_protocol.Contracts.Client.{new_client, get_statement, to_bytes32}
use zk_dpp_royalty_protocol.Contracts.Writes.{
  Write, submits, deposits, claims, run_write, call_of, attempt, world_of, embed,
}
use zk_dpp_royalty_protocol.Contracts.Runs.{
  Op, link_key, write, after, session, IsProper, run_write-Refines, sent-IsProper,
}
use zk_dpp_royalty_protocol.Contracts.Samples.{ethers, config, zero_hash}

abbrev submitting : Write
submitting = submits (record {
  statement_id = "st-1";
  supplier = "0xff";
  total_amount = "111";
  statement_hash = "0xaa";
})

-- The latest call stands first: a deposit without a signer, then a key, then two writes.
abbrev history : List Op
history = write submitting ∷ write claims ∷ link_key "k" ∷ write (deposits "1") ∷ []

sent_twice : length (session ethers config history).sent ≡ 2
unfolding to_bytes32
sent_twice = refl

run_write-Refines_example :
    (after ethers config history ≡ world_of config (session ethers config history))
    × (run_write ethers submitting (after ethers config history)
        ≡ embed config (
            attempt ethers config.addresses
              (call_of ethers submitting)
              (session ethers config history)))
run_write-Refines_example = run_write-Refines ethers config history submitting

sent-IsProper_example : All (IsProper ethers config history) (after ethers config history).sent
sent-IsProper_example = sent-IsProper ethers config (λ s. (refl, refl)) history

-- A status that ethers decodes as a bigint is never that of an unknown statement.
unknown_statement :
    get_statement ethers (new_client config) "nowhere"
    ≡ ok (
        some (record {
          statement_hash = zero_hash;
          supplier = "0x00";
          total_amount = 0;
          submitted_at = 0;
          finalized_at = 0;
          status = 0;
        }))
unfolding get_statement to_bytes32
unknown_statement = refl
