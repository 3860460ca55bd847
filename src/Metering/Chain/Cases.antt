-- ===== src/Metering/Chain/Cases.antt =====
-- The ways in which the two handlers of Metering/Chain end, as case lemmas: a property of the answer
-- and the world holds if it holds for each of them.
use zk_dpp_royalty_protocol.Common.{
  ℕ, ◌<◌, arith, String, ◌≡◌, true, none, some, inl, inr, [], ◌∷◌, ◌++◌, Bool-cases, Option-cases,
}
use zk_dpp_royalty_protocol.Common.Results.{Result, ok, err, Result-cases}
use zk_dpp_royalty_protocol.Common.Exec.{pure, caught}
use zk_dpp_royalty_protocol.Metering.Types.{pending, submitted, failed, SettlementStatement}
use zk_dpp_royalty_protocol.Metering.Settlement.{
  Statements, TxResult, find, update, set_status, set_submission, set_finalization,
}
use zk_dpp_royalty_protocol.Metering.Chain.{
  Submission, Request, ChainReply, World, refusal, done, is_finalized, is_not_submitted,
  is_submitted, submission_of, send, submit, check_and_submit, try_submit, catch_submit,
  submit_on_chain, finalize, check_and_finalize, try_finalize, finalize_on_chain,
}

abbrev pub with_statements : Statements → World → World
with_statements sts w = record w { statements = sts }

module _ (req : Request) (id wallet : String) (w : World) where
  -- The world after the row was marked PENDING and the contract called.
  abbrev pub sent : Submission → World
  sent s = record {
    statements = update id (set_status pending (some wallet)) w.statements;
    submissions = w.submissions ++ s ∷ [];
  }

  abbrev pub recorded : Submission → TxResult → World
  recorded s tx =
      with_statements (update id (set_submission tx submitted req.now) (sent s).statements) (sent s)

  -- The row that is read may be submitted.
  abbrev pub MaySubmit : SettlementStatement → Type 0
  MaySubmit st = (is_finalized st.status ≡ true) × (is_not_submitted st.blockchain_status ≡ true)

  module _ {ℓ} (P : Result ChainReply × World → Type ℓ)
      (refused : (code : ℕ) (e : String) → code < 500 → P (ok (refusal code e), w))
      (thrown : (e : String) → P (err e, w)) where
    submit-cases :
        (st : SettlementStatement)
        → ((amount : ℕ) (e : String) → P (err e, sent (submission_of req id wallet st amount)))
        → ((amount : ℕ) (tx : TxResult)
            → P (ok (done tx), recorded (submission_of req id wallet st amount) tx))
        → P (submit req id wallet st w)
    unfolding submit send submission_of update
    submit-cases st lost success = elim (Result-cases req.client.connect) [
      | inl (e, h) ↦ rw (h, submit) (thrown e)
      | inr (u, h) ↦ elim (Result-cases (req.client.parse_usdc st.total_amount)) [
        | inl (e, k) ↦ rw (h, k, submit) (thrown e)
        | inr (amount, k) ↦ elim (Option-cases req.faults.mark_pending) [
          | inr (e, m) ↦ rw (h, k, m, submit) (thrown e)
          | inl m ↦
              let s = submission_of req id wallet st amount in
              elim (Result-cases (req.client.submit_statement s)) [
                | inl (e, n) ↦ rw (h, k, m, n, submit, send) (lost amount e)
                | inr (tx, n) ↦ elim (Option-cases req.faults.record_result) [
                  | inr (e, r) ↦ rw (h, k, m, n, r, submit, send) (lost amount e)
                  | inl r ↦ rw (h, k, m, n, r, submit, send) (success amount tx)
                ]
              ]
        ]
      ]
    ]

    try_submit-cases :
        ((st : SettlementStatement)
          → find id w.statements ≡ some st
          → MaySubmit st
          → (amount : ℕ)
          → ((e : String) → P (err e, sent (submission_of req id wallet st amount)))
            × ((tx : TxResult)
                → P (ok (done tx), recorded (submission_of req id wallet st amount) tx)))
        → P (try_submit req id wallet w)
    unfolding try_submit check_and_submit
    try_submit-cases sends = elim (Option-cases req.faults.read) [
      | inr (e, h) ↦ rw (h, try_submit) (thrown e)
      | inl h ↦ elim (Option-cases (find id w.statements)) [
        | inl k ↦ rw (h, k, try_submit, check_and_submit) (refused 404 _ (omega arith))
        | inr (st, k) ↦ elim (Bool-cases (is_finalized st.status)) [
          | inr f ↦ rw (h, k, f, try_submit, check_and_submit) (refused 400 _ (omega arith))
          | inl f ↦ elim (Bool-cases (is_not_submitted st.blockchain_status)) [
            | inr n ↦ rw (h, k, f, n, try_submit, check_and_submit) (refused 400 _ (omega arith))
            | inl n ↦
                rw (h, k, f, n, try_submit, check_and_submit)
                  (submit-cases st (λ amount e. (sends st k (f, n) amount).0 e)
                    (λ amount tx. (sends st k (f, n) amount).1 tx))
          ]
        ]
      ]
    ]

-- The world after the `catch` block has marked the row.
abbrev pub marked_failed : String → World → World
marked_failed id w = with_statements (update id (set_status failed none) w.statements) w

module _ {ℓ} (req : Request) (id : String) (P : Result ChainReply × World → Type ℓ) where
  catch_submit-cases :
      (e : String) (w : World)
      → ((e' : String) → P (err e', w))
      → P (ok (refusal 500 e), marked_failed id w)
      → P (catch_submit req id e w)
  unfolding catch_submit update
  catch_submit-cases e w thrown marked = elim (Option-cases req.faults.mark_failed) [
    | inr (e', h) ↦ rw (h, catch_submit) (thrown e')
    | inl h ↦ rw (h, catch_submit) marked
  ]

  -- The world in which the `catch` block starts, if the `try` block failed.
  pub submit_on_chain-cases :
      (wallet : String) (w : World)
      → ((code : ℕ) (e : String) → code < 500 → P (ok (refusal code e), w))
      → ((e : String) → P (err e, w))
      → ((e : String) → P (ok (refusal 500 e), marked_failed id w))
      → ((st : SettlementStatement)
          → find id w.statements ≡ some st
          → MaySubmit req id wallet w st
          → (amount : ℕ)
          → let s = submission_of req id wallet st amount in
            ((e : String)
              → P (err e, sent req id wallet w s)
                × P (ok (refusal 500 e), marked_failed id (sent req id wallet w s)))
            × ((tx : TxResult) → P (ok (done tx), recorded req id wallet w s tx)))
      → P (submit_on_chain req id wallet w)
  unfolding submit_on_chain
  submit_on_chain-cases wallet w refused thrown marked sends =
      try_submit-cases req id wallet w (λ r. P (caught (catch_submit req id) r)) refused
        (λ e. catch_submit-cases e w thrown (marked e))
        (λ st found may amount. (
          λ e.
              catch_submit-cases e _ (λ e'. ((sends st found may amount).0 e').0)
                ((sends st found may amount).0 e).1,
          (sends st found may amount).1,
        ))

  abbrev catch_finalize : Result ChainReply × World → Result ChainReply × World
  catch_finalize = caught (λ e. pure (refusal 500 e))

  finalize-cases :
      (w : World) (st : SettlementStatement)
      → ((reply : Result ChainReply) → P (reply, w))
      → ((tx : TxResult)
          → P (ok (done tx), with_statements (update id (set_finalization req.now) w.statements) w))
      → P (catch_finalize (finalize req id st w))
  unfolding finalize update
  finalize-cases w st unchanged success = elim (Result-cases req.client.connect) [
    | inl (e, h) ↦ rw (h, finalize) (unchanged _)
    | inr (u, h) ↦ elim (Result-cases (req.client.is_finalizable st.id)) [
      | inl (e, k) ↦ rw (h, k, finalize) (unchanged _)
      | inr (ready, k) ↦ elim (Bool-cases ready) [
        | inr r ↦ elim (Result-cases (req.client.remaining_dispute_time st.id)) [
          | inl (e, m) ↦ rw (h, k, r, m, finalize) (unchanged _)
          | inr (t, m) ↦ rw (h, k, r, m, finalize) (unchanged _)
        ]
        | inl r ↦ elim (Result-cases (req.client.finalize_statement st.id)) [
          | inl (e, m) ↦ rw (h, k, r, m, finalize) (unchanged _)
          | inr (tx, m) ↦ elim (Option-cases req.faults.record_result) [
            | inr (e, n) ↦ rw (h, k, r, m, n, finalize) (unchanged _)
            | inl n ↦ rw (h, k, r, m, n, finalize) (success tx)
          ]
        ]
      ]
    ]
  ]

  pub finalize_on_chain-cases :
      (w : World)
      → ((reply : Result ChainReply) → P (reply, w))
      → ((st : SettlementStatement)
          → find id w.statements ≡ some st
          → is_submitted st.blockchain_status ≡ true
          → (tx : TxResult)
          → P (ok (done tx), with_statements (update id (set_finalization req.now) w.statements) w))
      → P (finalize_on_chain req id w)
  unfolding finalize_on_chain try_finalize check_and_finalize
  finalize_on_chain-cases w unchanged success = elim (Option-cases req.faults.read) [
    | inr (e, h) ↦ rw (h, finalize_on_chain, try_finalize) (unchanged _)
    | inl h ↦ elim (Option-cases (find id w.statements)) [
      | inl k ↦ rw (h, k, finalize_on_chain, try_finalize, check_and_finalize) (unchanged _)
      | inr (st, k) ↦ elim (Bool-cases (is_submitted st.blockchain_status)) [
        | inr n ↦ rw (h, k, n, finalize_on_chain, try_finalize, check_and_finalize) (unchanged _)
        | inl n ↦
            rw (h, k, n, finalize_on_chain, try_finalize, check_and_finalize)
              (finalize-cases w st unchanged (success st k n))
      ]
    ]
  ]
