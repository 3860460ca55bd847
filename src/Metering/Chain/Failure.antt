-- ===== src/Metering/Chain/Failure.antt =====
-- What a failed submission leaves behind.
use zk_dpp_royalty_protocol.Common.{
  ℕ, ◌≤◌, String, ◌≡◌, refl, false, Option, none, some, List, [], ◌∷◌, ◌++◌, arith, eq_iff, ◌==◌,
  Bool-cases, Option-cases, inl, inr, subst, ◌∙◌, eq_refl,
}
use zk_dpp_royalty_protocol.Common.Results.{ok}
use zk_dpp_royalty_protocol.Metering.Types.{pending, submitted, failed, SettlementStatement}
use zk_dpp_royalty_protocol.Metering.Settlement.{
  Statements, find, update, finalize_row, finalize_statement, post_finalize, set_status,
  set_submission, set_finalization,
}
use zk_dpp_royalty_protocol.Metering.Settlement.Rows.{
  KeepsId, find-update, find-append, finalize_row-KeepsId, set_status-KeepsId,
  set_submission-KeepsId, set_finalization-KeepsId,
}
use zk_dpp_royalty_protocol.Metering.Statement.New.{generate_statement-cases}
use zk_dpp_royalty_protocol.Metering.Chain.{Request, World, refusal, submission_of, submit_on_chain}
use zk_dpp_royalty_protocol.Metering.Chain.Cases.{
  marked_failed, sent, MaySubmit, submit_on_chain-cases, finalize_on_chain-cases,
}
use zk_dpp_royalty_protocol.Metering.Chain.Once.{tries, credit-run, unsent}
use zk_dpp_royalty_protocol.Metering.Chain.Run.{
  Call, generate, finalize, to_chain, settle, step, run, run-keeps,
}

-- The row is there and says FAILED.
abbrev pub IsFailed : Option SettlementStatement → Type 0
IsFailed none = ⊥
IsFailed (some st) = st.blockchain_status ≡ failed

abbrev pub row_of : String → World → Option SettlementStatement
row_of id w = find id w.statements

failed-unsent : (o : Option SettlementStatement) → IsFailed o → unsent o ≡ 0
failed-unsent none h = absurd h
failed-unsent (some st) h = rw h refl

module _ (id : String) where
  update-IsFailed :
      (j : String) (f : SettlementStatement → SettlementStatement) (sts : Statements)
      → KeepsId f
      → ((st : SettlementStatement)
          → find j sts ≡ some st
          → st.blockchain_status ≡ failed
          → (f st).blockchain_status ≡ failed)
      → IsFailed (find id sts)
      → IsFailed (find id (update j f sts))
  update-IsFailed j f sts keeps stays h =
      rw (find-update j id f sts keeps) (elim (Bool-cases (j == id)) [
        | inr n ↦ rw n h
        | inl y ↦ elim (Option-cases (find id sts)) [
          | inl k ↦ absurd (rw k at h)
          | inr (st, k) ↦ rw (y, k) (stays st (ground (arith, eq_iff j id)) (rw k at h))
        ]
      ])

  append-IsFailed :
      (sts : Statements) (st : SettlementStatement)
      → IsFailed (find id sts)
      → IsFailed (find id (sts ++ st ∷ []))
  append-IsFailed sts st h = rw (find-append id sts st) (elim (Option-cases (find id sts)) [
    | inl k ↦ absurd (rw k at h)
    | inr (old, k) ↦ rw k (rw k at h)
  ])

  abbrev StillFailed : {A : Type 0} → A × World → Type 0
  StillFailed r = IsFailed (row_of id r.1)

  marked-IsFailed :
      (j : String) (w : World) → IsFailed (row_of id w) → IsFailed (row_of id (marked_failed j w))
  unfolding set_status
  marked-IsFailed j w h =
      update-IsFailed j (set_status failed none) w.statements (set_status-KeepsId failed none)
        (λ st k f. refl) h

  -- A row that may be sent is another one.
  other_row :
      (req : Request) (j wallet : String) (w : World) (st : SettlementStatement)
      → find j w.statements ≡ some st
      → MaySubmit req j wallet w st
      → IsFailed (row_of id w)
      → (j == id) ≡ false
  other_row req j wallet w st found (f, n) h = elim (Bool-cases (j == id)) [
    | inr y ↦ y
    | inl y ↦
        let here = subst (λ k. find k w.statements ≡ some st) ((eq_iff j id).0 y) found in
        absurd (ground (arith, n, (rw here at h)))
  ]

  update-other :
      (j : String) (f : SettlementStatement → SettlementStatement) (sts : Statements)
      → KeepsId f
      → (j == id) ≡ false
      → IsFailed (find id sts)
      → IsFailed (find id (update j f sts))
  update-other j f sts keeps n h = rw (find-update j id f sts keeps) (rw n h)

  submit-IsFailed :
      (req : Request) (j wallet : String) (w : World)
      → IsFailed (row_of id w)
      → StillFailed (submit_on_chain req j wallet w)
  submit-IsFailed req j wallet w h =
      submit_on_chain-cases req j StillFailed wallet w (λ c e l. h) (λ e. h)
        (λ e. marked-IsFailed j w h)
        (λ st found may amount.
          let s = submission_of req j wallet st amount in
          let n = other_row req j wallet w st found may h in
          let first =
            update-other j (set_status pending (some wallet)) w.statements
              (set_status-KeepsId pending (some wallet)) n h in
          (
            λ e. (first, marked-IsFailed j (sent req j wallet w s) first),
            λ tx.
                update-other j (set_submission tx submitted req.now)
                  (sent req j wallet w s).statements (set_submission-KeepsId tx submitted req.now) n
                  first,
          ))

  finalize_row-failed :
      (now : ℕ) (st : SettlementStatement)
      → st.blockchain_status ≡ failed
      → (finalize_row now st).blockchain_status ≡ failed
  unfolding finalize_row
  finalize_row-failed now st h = ground (arith, h)

  step-IsFailed : (c : Call) (w : World) → IsFailed (row_of id w) → IsFailed (row_of id (step c w))
  unfolding step post_finalize finalize_statement
  step-IsFailed (generate registry pg i now input rows) w h =
      generate_statement-cases (λ sts. IsFailed (find id sts)) registry pg i now input rows
        w.statements h (λ st new. append-IsFailed w.statements st h)
  step-IsFailed (finalize i now) w h =
      update-IsFailed i (finalize_row now) w.statements (finalize_row-KeepsId now)
        (λ st k f. finalize_row-failed now st f) h
  step-IsFailed (to_chain req i wallet) w h = submit-IsFailed req i wallet w h
  step-IsFailed (settle req i) w h =
      finalize_on_chain-cases req i StillFailed w (λ reply. h)
        (λ st found sub tx.
          update-IsFailed i (set_finalization req.now) w.statements
            (set_finalization-KeepsId req.now)
            (λ st' k f. absurd (ground (arith, found, k, f, sub))) h)

  -- Once a row says FAILED, it says so after any requests, and the contract is not called for it.
  pub IsFailed-forever :
      (cs : List Call) (w : World)
      → IsFailed (row_of id w)
      → IsFailed (row_of id (run cs w)) × (tries id (run cs w).submissions ≤ tries id w.submissions)
  IsFailed-forever cs w h =
      let h' = run-keeps (λ w'. IsFailed (row_of id w')) step-IsFailed cs w h in
      (h', omega (arith, credit-run id cs w, failed-unsent (row_of id w) h))

-- The row after the `catch` block.
pub marked-row :
    (id : String) (w : World) (st : SettlementStatement)
    → find id w.statements ≡ some st
    → IsFailed (row_of id (marked_failed id w))
unfolding set_status
marked-row id w st found =
    rw (find-update id id (set_status failed none) w.statements (set_status-KeepsId failed none))
      (rw (eq_refl id, found) refl)

answered_500 :
    (req : Request) (id wallet e : String) (w : World) (st : SettlementStatement)
    → find id w.statements ≡ some st
    → (submit_on_chain req id wallet w).0 ≡ ok (refusal 500 e)
    → IsFailed (row_of id (submit_on_chain req id wallet w).1)
unfolding set_status
answered_500 req id wallet e w st found =
    submit_on_chain-cases req id (λ r. r.0 ≡ ok (refusal 500 e) → IsFailed (row_of id r.1)) wallet w
      (λ c e' l a. absurd (ground (arith, a, l))) (λ e' a. absurd (cc a))
      (λ e' a. marked-row id w st found)
      (λ st' found' may amount.
        let s = submission_of req id wallet st' amount in
        let there =
          find-update id id (set_status pending (some wallet)) w.statements
            (set_status-KeepsId pending (some wallet)) in
        (
          λ e'. (
            λ a. absurd (cc a),
            λ a.
                marked-row id (sent req id wallet w s) (set_status pending (some wallet) st)
                  (there ∙ rw (eq_refl id, found) refl),
          ),
          λ tx a. absurd (ground (arith, a)),
        ))

-- If a submission of an existing statement gets the answer 500 of the handler itself, that
-- statement has the status FAILED. It keeps that status whatever requests are handled after it, one
-- by one, and none of them calls the contract for it again.
pub refused_for_good :
    (req : Request) (id wallet e : String) (w : World) (st : SettlementStatement) (cs : List Call)
    → find id w.statements ≡ some st
    → (submit_on_chain req id wallet w).0 ≡ ok (refusal 500 e)
    → let w' = (submit_on_chain req id wallet w).1 in
      IsFailed (row_of id (run cs w'))
      × (tries id (run cs w').submissions ≤ tries id w'.submissions)
refused_for_good req id wallet e w st cs found answer =
    IsFailed-forever id cs (submit_on_chain req id wallet w).1
      (answered_500 req id wallet e w st found answer)
