-- ===== src/Metering/Chain/Once.antt =====
-- How often the contract is called for a statement.
use zk_dpp_royalty_protocol.Common.{
  ℕ, ◌+◌, ◌≤◌, String, ◌≡◌, refl, false, Option, none, some, List, [], ◌∷◌, ◌++◌, arith, eq_iff,
  ◌==◌, if◌then◌else◌, Bool-cases, Option-cases, inl, inr, subst,
}
use zk_dpp_royalty_protocol.Metering.Types.{
  BlockchainStatus, pending, submitted, failed, SettlementStatement,
}
use zk_dpp_royalty_protocol.Metering.Settlement.{
  Statements, TxResult, find, update, finalize_row, finalize_statement, post_finalize, set_status,
  set_submission, set_finalization,
}
use zk_dpp_royalty_protocol.Metering.Settlement.Rows.{
  KeepsId, find-update, find-append, find-id, finalize_row-KeepsId, set_status-KeepsId,
  set_submission-KeepsId, set_finalization-KeepsId,
}
use zk_dpp_royalty_protocol.Metering.Statement.New.{generate_statement-cases}
use zk_dpp_royalty_protocol.Metering.Chain.{
  Submission, Request, World, is_not_submitted, submission_of, submit_on_chain,
}
use zk_dpp_royalty_protocol.Metering.Chain.Cases.{
  with_statements, marked_failed, sent, MaySubmit, submit_on_chain-cases, finalize_on_chain-cases,
}
use zk_dpp_royalty_protocol.Metering.Chain.Run.{
  Call, generate, finalize, to_chain, settle, step, run, run-keeps,
}

-- The calls of the contract's `submitStatement` for a statement.
abbrev pub tries : String → List Submission → ℕ
tries id [] = 0
tries id (s ∷ ss) = (if s.statement_id == id then 1 else 0) + tries id ss

tries-append :
    (id : String) (ss : List Submission) (s : Submission)
    → tries id (ss ++ s ∷ []) ≡ tries id ss + (if s.statement_id == id then 1 else 0)
tries-append id [] s = ground arith
tries-append id (t ∷ ss) s = ground (arith, tries-append id ss s)

-- 1 for a statement that may still be submitted, or does not exist yet.
abbrev pub unsent : Option SettlementStatement → ℕ
unsent none = 1
unsent (some st) = if is_not_submitted st.blockchain_status then 1 else 0

unsent_le_one : (o : Option SettlementStatement) → unsent o ≤ 1
unsent_le_one none = omega arith
unsent_le_one (some st) = ground arith

module _ (id : String) where
  abbrev pub credit : World → ℕ
  credit w = tries id w.submissions + unsent (find id w.statements)

  -- A change of rows that opens none.
  abbrev Closes : (SettlementStatement → SettlementStatement) → Type 0
  Closes f = (st : SettlementStatement) → unsent (some (f st)) ≤ unsent (some st)

  unsent-update :
      (j : String) (f : SettlementStatement → SettlementStatement) (sts : Statements)
      → KeepsId f
      → Closes f
      → unsent (find id (update j f sts)) ≤ unsent (find id sts)
  unsent-update j f sts keeps closes =
      rw (find-update j id f sts keeps) (elim (Bool-cases (j == id)) [
        | inr n ↦ rw n (omega arith)
        | inl y ↦ elim (Option-cases (find id sts)) [
          | inl h ↦ rw (y, h) (omega arith)
          | inr (st, h) ↦ rw (y, h) (closes st)
        ]
      ])

  finalize_row-Closes : (now : ℕ) → Closes (finalize_row now)
  unfolding finalize_row
  finalize_row-Closes now st = ground arith

  unsent-append :
      (sts : Statements) (st : SettlementStatement)
      → unsent (find id (sts ++ st ∷ [])) ≤ unsent (find id sts)
  unsent-append sts st = rw (find-append id sts st) (elim (Option-cases (find id sts)) [
    | inl h ↦ rw h (ground arith)
    | inr (old, h) ↦ rw h (omega arith)
  ])

  set_status-Closes :
      (s : BlockchainStatus) (wallet : Option String)
      → is_not_submitted s ≡ false
      → Closes (set_status s wallet)
  unfolding set_status
  set_status-Closes s wallet h st = rw h (omega arith)

  set_submission-Closes :
      (req : Request) (tx : TxResult) → Closes (set_submission tx submitted req.now)
  unfolding set_submission
  set_submission-Closes req tx st = omega arith

  set_finalization-Closes : (now : ℕ) → Closes (set_finalization now)
  unfolding set_finalization
  set_finalization-Closes now st = omega arith

  -- The credit does not grow when the statement is sent.
  credit-sent :
      (req : Request) (j wallet : String) (w : World) (st : SettlementStatement) (amount : ℕ)
      → find j w.statements ≡ some st
      → MaySubmit req j wallet w st
      → credit (sent req j wallet w (submission_of req j wallet st amount)) ≤ credit w
  unfolding submission_of set_status
  credit-sent req j wallet w st amount found (f, n) = elim (Bool-cases (j == id)) [
    | inl y ↦
        let here = subst (λ k. find k w.statements ≡ some st) ((eq_iff j id).0 y) found in
        ground (
          arith,
          tries-append id w.submissions (submission_of req j wallet st amount),
          find-update j id (set_status pending (some wallet)) w.statements
              (set_status-KeepsId pending (some wallet)),
          here,
          n,
          y,
          find-id j w.statements st found,
        )
    | inr y ↦ ground (
      arith,
      tries-append id w.submissions (submission_of req j wallet st amount),
      unsent-update j (set_status pending (some wallet)) w.statements
          (set_status-KeepsId pending (some wallet)) (set_status-Closes pending (some wallet) refl),
      find-id j w.statements st found,
      y,
    )
  ]

  abbrev Bounded : {A : Type 0} → World → A × World → Type 0
  Bounded w r = credit r.1 ≤ credit w

  failed-bounded : (j : String) (w : World) → credit (marked_failed j w) ≤ credit w
  failed-bounded j w = omega (
    arith,
    unsent-update j (set_status failed none) w.statements (set_status-KeepsId failed none)
        (set_status-Closes failed none refl),
  )

  credit-submit :
      (req : Request) (j wallet : String) (w : World) → Bounded w (submit_on_chain req j wallet w)
  credit-submit req j wallet w =
      submit_on_chain-cases req j (Bounded w) wallet w (λ c e l. omega arith) (λ e. omega arith)
        (λ e. failed-bounded j w)
        (λ st found may amount.
          let s = submission_of req j wallet st amount in
          let first = credit-sent req j wallet w st amount found may in
          (
            λ e. (first, omega (arith, first, failed-bounded j (sent req j wallet w s))),
            λ tx. omega (
              arith,
              first,
              unsent-update j (set_submission tx submitted req.now)
                  (sent req j wallet w s).statements (set_submission-KeepsId tx submitted req.now)
                  (set_submission-Closes req tx),
            ),
          ))

  credit-step : (c : Call) (w : World) → credit (step c w) ≤ credit w
  unfolding step post_finalize finalize_statement
  credit-step (generate registry pg i now input rows) w =
      generate_statement-cases (λ sts. credit (with_statements sts w) ≤ credit w) registry pg i now
        input rows w.statements (omega arith)
        (λ st new. omega (arith, unsent-append w.statements st))
  credit-step (finalize i now) w = omega (
    arith,
    unsent-update i (finalize_row now) w.statements (finalize_row-KeepsId now)
        (finalize_row-Closes now),
  )
  credit-step (to_chain req i wallet) w = credit-submit req i wallet w
  credit-step (settle req i) w =
      finalize_on_chain-cases req i (Bounded w) w (λ reply. omega arith)
        (λ st found h tx. omega (
          arith,
          unsent-update i (set_finalization req.now) w.statements (set_finalization-KeepsId req.now)
              (set_finalization-Closes req.now),
        ))

  -- In any run, the calls made for a statement and 1 for a statement that may still be submitted
  -- (because its row says NOT_SUBMITTED, or there is none) never exceed what they were at the start.
  pub credit-run : (cs : List Call) (w : World) → credit (run cs w) ≤ credit w
  credit-run cs w =
      run-keeps (λ w'. credit w' ≤ credit w) (λ c w' h. omega (arith, h, credit-step c w')) cs w
        (omega arith)

-- Whatever requests are handled one after the other, with whatever errors of the queries and of the
-- contract, the contract is called at most once to submit a statement.
pub submitted_once :
    (id : String) (cs : List Call) (sts : Statements)
    → tries id (run cs (record { statements = sts; submissions = [] })).submissions ≤ 1
submitted_once id cs sts = omega (
  arith,
  credit-run id cs (record { statements = sts; submissions = [] }),
  unsent_le_one (find id sts),
)
