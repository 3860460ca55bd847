-- ===== src/Metering/Chain/Tests.antt =====
-- A statement on its way to the chain, and instances of the theorems on such requests.

use zk_dpp_royalty_protocol.Common.{
  ◌≤◌, String, ◌≡◌, refl, true, none, some, List, [], ◌∷◌, ◌==◌, inl, inr, Bool-cases,
}
use zk_dpp_royalty_protocol.Common.Results.{ok, err}
use zk_dpp_royalty_protocol.Common.Exec.{caught}
use zk_dpp_royalty_protocol.Predicates.{eur}
use zk_dpp_royalty_protocol.Metering.Types.{SettlementStatement, finalized, draft, not_submitted}
use zk_dpp_royalty_protocol.Metering.Settlement.{TxResult, find}
use zk_dpp_royalty_protocol.Metering.Chain.{
  Client, Request, World, done, refusal, send, submit, check_and_submit, try_submit, catch_submit,
  submit_on_chain,
}
use zk_dpp_royalty_protocol.Metering.Chain.Run.{Call, finalize, to_chain, settle, run}
use zk_dpp_royalty_protocol.Metering.Chain.Once.{tries, submitted_once}
use zk_dpp_royalty_protocol.Metering.Chain.Failure.{IsFailed, row_of, refused_for_good}
use zk_dpp_royalty_protocol.Metering.Chain.Success.{
  IsSubmitted, submit_on_chain-done, no_faults, second_submission-fails,
}
use zk_dpp_royalty_protocol.Metering.Chain.Invariant.{IsSound, SoundTable, run-Sound}

abbrev statement : SettlementStatement
statement = record {
  id = "st-1";
  supplier_id = "s-1";
  period_start = 100;
  period_end = 200;
  total_verifications = 2;
  total_amount = 1000;
  currency = eur;
  breakdown = [];
  status = draft;
  created_at = 300;
  finalized_at = none;
  supplier_wallet = none;
  blockchain_status = not_submitted;
  tx_hash = none;
  block_number = none;
  chain_submitted_at = none;
  chain_finalized_at = none;
}

abbrev client : Client
client = record {
  connect = ok tt;
  statement_hash = λ st. "0xaa";
  parse_usdc = λ n. ok n;
  submit_statement = λ s. ok (record { hash = "0x01"; block_number = 7 });
  is_finalizable = λ id. ok true;
  remaining_dispute_time = λ id. ok 0;
  finalize_statement = λ id. ok (record { hash = "0x02"; block_number = 9 });
  show = λ n. "0";
}

-- a contract that refuses every submission
abbrev refusing : Client
refusing = record client { submit_statement = λ s. err "StatementAlreadyExists" }

abbrev request : Request
request = record { client = client; faults = no_faults; now = 500 }

abbrev refused_request : Request
refused_request = record request { client = refusing }

abbrev wallet : String
wallet = "0x00000000000000000000000000000000000000ff"

abbrev finalized_statement : SettlementStatement
finalized_statement = record statement { status = finalized; finalized_at = some 400 }

abbrev world : World
world = record { statements = finalized_statement ∷ []; submissions = [] }

abbrev tx : TxResult
tx = record { hash = "0x01"; block_number = 7 }

world-find : find "st-1" world.statements ≡ some finalized_statement
unfolding find
world-find = refl

submit-answer : (submit_on_chain request "st-1" wallet world).0 ≡ ok (done tx)
unfolding submit_on_chain try_submit check_and_submit submit send find
submit-answer = refl

refused-answer :
    (submit_on_chain refused_request "st-1" wallet world).0
    ≡ ok (refusal 500 "StatementAlreadyExists")
unfolding submit_on_chain try_submit check_and_submit submit send catch_submit find
refused-answer = refl

-- finalized, submitted, submitted again, settled
abbrev calls : List Call
calls =
    finalize "st-1" 400
    ∷ to_chain request "st-1" wallet
    ∷ to_chain request "st-1" wallet
    ∷ settle request "st-1"
    ∷ []

submitted_once_example :
    tries "st-1" (run calls (record { statements = statement ∷ []; submissions = [] })).submissions
    ≤ 1
submitted_once_example = submitted_once "st-1" calls (statement ∷ [])

refused_for_good_example :
    let w' = (submit_on_chain refused_request "st-1" wallet world).1 in
    IsFailed (row_of "st-1" (run calls w'))
    × (tries "st-1" (run calls w').submissions ≤ tries "st-1" w'.submissions)
refused_for_good_example =
    refused_for_good refused_request "st-1" wallet "StatementAlreadyExists" world
      finalized_statement calls world-find refused-answer

submit_on_chain-done_example :
    IsSubmitted request "st-1" wallet world tx (submit_on_chain request "st-1" wallet world).1
submit_on_chain-done_example = submit_on_chain-done request "st-1" wallet world tx submit-answer

second_submission-fails_example :
    let w' = (submit_on_chain request "st-1" wallet world).1 in
    let late =
      caught
        (catch_submit refused_request "st-1")
        (check_and_submit refused_request "st-1" wallet (some finalized_statement) w') in
    (late.0 ≡ ok (refusal 500 "StatementAlreadyExists")) × IsFailed (row_of "st-1" late.1)
second_submission-fails_example =
    second_submission-fails request "st-1" wallet world tx refused_request wallet
      "StatementAlreadyExists" finalized_statement 1000 world-find submit-answer refl refl refl refl

statement-IsSound : IsSound statement
statement-IsSound = record { fits = refl; dated = refl; settled = refl; traced = refl }

statement-SoundTable : SoundTable (statement ∷ [])
unfolding find
statement-SoundTable j = elim (Bool-cases ("st-1" == j)) [
  | inl y ↦ rw (y, find) statement-IsSound
  | inr n ↦ rw (n, find) tt
]

run-Sound_example :
    SoundTable (run calls (record { statements = statement ∷ []; submissions = [] })).statements
run-Sound_example =
    run-Sound calls (record { statements = statement ∷ []; submissions = [] }) statement-SoundTable
