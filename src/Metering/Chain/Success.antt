-- ===== src/Metering/Chain/Success.antt =====
-- What a successful submission does, and what becomes of a second one that read the row before.
use zk_dpp_royalty_protocol.Common.{
  ℕ, ◌≡◌, ◌∙◌, refl, sym, ap, subst, Option, String, true, none, some, ◌∷◌, [], ◌++◌, arith,
  eq_refl, ◌==◌, if◌then◌else◌,
}
use zk_dpp_royalty_protocol.Common.Results.{Result, ok, err}
use zk_dpp_royalty_protocol.Common.Exec.{caught}
use zk_dpp_royalty_protocol.Metering.Types.{pending, submitted, SettlementStatement}
use zk_dpp_royalty_protocol.Metering.Settlement.{TxResult, find, update, set_status, set_submission}
use zk_dpp_royalty_protocol.Metering.Settlement.Rows.{
  map_row, find-update, set_status-KeepsId, set_submission-KeepsId,
}
use zk_dpp_royalty_protocol.Metering.Chain.{
  Submission, Request, Faults, ChainReply, World, done, refusal, is_finalized, is_not_submitted,
  submission_of, submit, send, check_and_submit, catch_submit, submit_on_chain,
}
use zk_dpp_royalty_protocol.Metering.Chain.Cases.{sent, recorded, MaySubmit, submit_on_chain-cases}
use zk_dpp_royalty_protocol.Metering.Chain.Failure.{IsFailed, row_of, marked-row}

some-injective :
    (st st' : SettlementStatement)
    → ◌≡◌ {A = Option SettlementStatement} (some st) (some st')
    → st' ≡ st
some-injective st st' h = ground (arith, h)

pub done-injective :
    (tx tx' : TxResult) → ◌≡◌ {A = Result ChainReply} (ok (done tx')) (ok (done tx)) → tx ≡ tx'
done-injective tx tx' a = ground (arith, a)

module _ (req : Request) (id wallet : String) (w : World) (tx : TxResult) where
  -- The row with the transaction of its submission.
  abbrev pub submitted_row : SettlementStatement → SettlementStatement
  submitted_row st = set_submission tx submitted req.now (set_status pending (some wallet) st)

  abbrev pub IsSubmitted : World → Type 0
  IsSubmitted w' =
      (st : SettlementStatement) × (amount : ℕ) × (find id w.statements ≡ some st)
      × MaySubmit req id wallet w st
      × (w'.submissions ≡ w.submissions ++ submission_of req id wallet st amount ∷ [])
      × (find id w'.statements ≡ some (submitted_row st))
      × ((j : String)
          → find j w'.statements ≡ (
              if id == j then map_row submitted_row (find j w.statements) else find j w.statements))

  find-recorded :
      (j : String) (s : Submission)
      → find j (recorded req id wallet w s tx).statements
        ≡ (if id == j then map_row submitted_row (find j w.statements) else find j w.statements)
  find-recorded j s =
      find-update id j (set_submission tx submitted req.now) (sent req id wallet w s).statements
        (set_submission-KeepsId tx submitted req.now)
      ∙ ground (
        arith,
        find-update id j (set_status pending (some wallet)) w.statements
            (set_status-KeepsId pending (some wallet)),
      )

  recorded-IsSubmitted :
      (st : SettlementStatement) (amount : ℕ)
      → find id w.statements ≡ some st
      → MaySubmit req id wallet w st
      → IsSubmitted (recorded req id wallet w (submission_of req id wallet st amount) tx)
  recorded-IsSubmitted st amount found may =
      let s = submission_of req id wallet st amount in
      (
        st,
        amount,
        found,
        may,
        refl,
        find-recorded id s ∙ rw (eq_refl id, found) refl,
        λ j. find-recorded j s,
      )

  -- A submission that is answered with a transaction was made of a FINALIZED, NOT_SUBMITTED row, by
  -- one call of the contract for that row; the row holds the transaction, the wallet and SUBMITTED,
  -- and no other row has changed.
  pub submit_on_chain-done :
      (submit_on_chain req id wallet w).0 ≡ ok (done tx)
      → IsSubmitted (submit_on_chain req id wallet w).1
  submit_on_chain-done =
      submit_on_chain-cases req id (λ r. r.0 ≡ ok (done tx) → IsSubmitted r.1) wallet w
        (λ c e l a. absurd (ground (arith, a))) (λ e a. absurd (cc a))
        (λ e a. absurd (ground (arith, a)))
        (λ st found may amount. (
          λ e. (λ a. absurd (cc a), λ a. absurd (ground (arith, a))),
          λ tx' a.
              let s = submission_of req id wallet st amount in
              subst (λ t. IsSubmitted (recorded req id wallet w s t)) (done-injective tx tx' a)
                (recorded-IsSubmitted st amount found may),
        ))

-- No query of the request fails.
abbrev pub no_faults : Faults
no_faults = record { read = none; mark_pending = none; record_result = none; mark_failed = none }

-- Two submissions of one statement whose reads both come before the first one's update: the first is
-- answered with a transaction, and if the contract refuses the second call, the second answers 500
-- and the row says FAILED, although the statement is on the chain.
pub second_submission-fails :
    (first : Request) (id wallet : String) (w : World) (tx : TxResult) (second : Request)
    (wallet' e : String) (st : SettlementStatement) (amount : ℕ)
    → find id w.statements ≡ some st
    → (submit_on_chain first id wallet w).0 ≡ ok (done tx)
    → second.client.connect ≡ ok tt
    → second.client.parse_usdc st.total_amount ≡ ok amount
    → second.client.submit_statement (submission_of second id wallet' st amount) ≡ err e
    → second.faults ≡ no_faults
    → let w' = (submit_on_chain first id wallet w).1 in
      let late =
        caught (catch_submit second id) (check_and_submit second id wallet' (some st) w') in
      (late.0 ≡ ok (refusal 500 e)) × IsFailed (row_of id late.1)
unfolding check_and_submit submit send catch_submit submission_of update set_status
second_submission-fails first id wallet w tx second wallet' e st amount found a c p s f =
    let (st', amount', found', (fin, new), sub, here, other) =
      submit_on_chain-done first id wallet w tx a in
    let w' = (submit_on_chain first id wallet w).1 in
    let same = some-injective st st' (sym found ∙ found') in
    let pending_ok = ap (λ x. x.mark_pending) f in
    let failed_ok = ap (λ x. x.mark_failed) f in
    rw
      (
        subst (λ x. is_finalized x.status ≡ true) same fin,
        subst (λ x. is_not_submitted x.blockchain_status ≡ true) same new,
        c,
        p,
        pending_ok,
        s,
        failed_ok,
        check_and_submit,
        submit,
        send,
        catch_submit,
      )
      (
        refl,
        marked-row id (sent second id wallet' w' (submission_of second id wallet' st amount))
            (set_status pending (some wallet') (submitted_row first id wallet w tx st'))
            (find-update id id (set_status pending (some wallet')) w'.statements
                (set_status-KeepsId pending (some wallet'))
              ∙ rw (eq_refl id, here) refl),
      )
