-- ===== src/Metering/Chain/Called.antt =====
-- The call of the contract behind a submission that is answered with a transaction.
use zk_dpp_royalty_protocol.Common.{
  ℕ, String, ◌≡◌, refl, sym, ◌∙◌, ap, Option, none, some, inl, inr, Option-cases, Bool-cases, arith,
}
use zk_dpp_royalty_protocol.Common.Results.{Result, ok, err, Result-cases}
use zk_dpp_royalty_protocol.Common.Exec.{caught}
use zk_dpp_royalty_protocol.Metering.Types.{SettlementStatement}
use zk_dpp_royalty_protocol.Metering.Settlement.{TxResult, find}
use zk_dpp_royalty_protocol.Metering.Chain.{
  Request, World, ChainReply, done, refusal, submission_of, send, is_finalized, is_not_submitted,
  check_and_submit, try_submit, catch_submit, submit_on_chain,
}
use zk_dpp_royalty_protocol.Metering.Chain.{submit as submit_row}
use zk_dpp_royalty_protocol.Metering.Chain.Cases.{marked_failed}
use zk_dpp_royalty_protocol.Metering.Chain.Success.{done-injective}

module _ (req : Request) (id wallet : String) (w : World) (tx : TxResult) where
  -- The call of the contract that gave the transaction.
  abbrev IsCalled : SettlementStatement → Type 0
  IsCalled st =
      (amount : ℕ) × (req.client.parse_usdc st.total_amount ≡ ok amount)
      × (req.client.submit_statement (submission_of req id wallet st amount) ≡ ok tx)

  submit-IsCalled :
      (st : SettlementStatement) → (submit_row req id wallet st w).0 ≡ ok (done tx) → IsCalled st
  unfolding submit_row send submission_of
  submit-IsCalled st = elim (Result-cases req.client.connect) [
    | inl (e, h) ↦ rw (h, submit_row) (λ a. absurd (cc a))
    | inr (u, h) ↦ elim (Result-cases (req.client.parse_usdc st.total_amount)) [
      | inl (e, k) ↦ rw (h, k, submit_row) (λ a. absurd (cc a))
      | inr (amount, k) ↦ elim (Option-cases req.faults.mark_pending) [
        | inr (e, l) ↦ rw (h, k, l, submit_row) (λ a. absurd (cc a))
        | inl l ↦
            let s = submission_of req id wallet st amount in
            elim (Result-cases (req.client.submit_statement s)) [
              | inl (e, m) ↦ rw (h, k, l, m, submit_row, send) (λ a. absurd (cc a))
              | inr (tx', m) ↦ elim (Option-cases req.faults.record_result) [
                | inr (e, n) ↦ rw (h, k, l, m, n, submit_row, send) (λ a. absurd (cc a))
                | inl n ↦
                    rw (h, k, l, m, n, submit_row, send)
                      (λ a. (amount, refl, m ∙ ap ok (sym (done-injective tx tx' a))))
              ]
            ]
      ]
    ]
  ]

  check_and_submit-IsCalled :
      (found : Option SettlementStatement)
      → (check_and_submit req id wallet found w).0 ≡ ok (done tx)
      → (st : SettlementStatement) × (found ≡ some st) × IsCalled st
  unfolding check_and_submit
  check_and_submit-IsCalled none a = absurd (ground (arith, a))
  check_and_submit-IsCalled (some st) a = elim (Bool-cases (is_finalized st.status)) [
    | inr f ↦ absurd (ground (arith, a))
    | inl f ↦ elim (Bool-cases (is_not_submitted st.blockchain_status)) [
      | inr n ↦ absurd (ground (arith, a))
      | inl n ↦
          let is : check_and_submit req id wallet (some st) w ≡ submit_row req id wallet st w =
            rw (f, n) refl in
          (st, refl, submit-IsCalled st (ap (λ x. x.0) (sym is) ∙ a))
    ]
  ]

  try_submit-IsCalled :
      (try_submit req id wallet w).0 ≡ ok (done tx)
      → (st : SettlementStatement) × (find id w.statements ≡ some st) × IsCalled st
  unfolding try_submit
  try_submit-IsCalled a = elim (Option-cases req.faults.read) [
    | inr (e, h) ↦ absurd (cc (sym (ap (λ x. x.0) (failed e h)) ∙ a))
    | inl h ↦ check_and_submit-IsCalled (find id w.statements) (ap (λ x. x.0) (sym (went h)) ∙ a)
  ]
    where
      failed : (e : String) → req.faults.read ≡ some e → try_submit req id wallet w ≡ (err e, w)
      failed e h = rw (h, try_submit) refl

      went :
          req.faults.read ≡ none
          → try_submit req id wallet w ≡ check_and_submit req id wallet (find id w.statements) w
      went h = rw (h, try_submit) refl

  caught-done :
      (x : Result ChainReply × World)
      → (caught (catch_submit req id) x).0 ≡ ok (done tx)
      → x.0 ≡ ok (done tx)
  unfolding catch_submit
  caught-done (ok reply, w') a = a
  caught-done (err e, w') a = elim (Option-cases req.faults.mark_failed) [
    | inl h ↦ absurd (ground (arith, sym (ap (λ x. x.0) (answered h)) ∙ a))
    | inr (f, h) ↦ absurd (cc (sym (ap (λ x. x.0) (failed f h)) ∙ a))
  ]
    where
      answered :
          req.faults.mark_failed ≡ none
          → catch_submit req id e w' ≡ (ok (refusal 500 e), marked_failed id w')
      answered h = rw (h, catch_submit) refl

      failed :
          (f : String) → req.faults.mark_failed ≡ some f → catch_submit req id e w' ≡ (err f, w')
      failed f h = rw (h, catch_submit) refl

  pub submit_on_chain-IsCalled :
      (submit_on_chain req id wallet w).0 ≡ ok (done tx)
      → (st : SettlementStatement) × (find id w.statements ≡ some st) × IsCalled st
  unfolding submit_on_chain
  submit_on_chain-IsCalled a = try_submit-IsCalled (caught-done (try_submit req id wallet w) a)
