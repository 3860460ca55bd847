-- ===== src/Metering/Chain/Invariant.antt =====
-- Which pairs of statuses a row can have, and what its columns then hold.
use zk_dpp_royalty_protocol.Common.{
  ℕ, String, ◌≡◌, refl, sym, ap, ◌∙◌, subst, Bool, true, false, not, ◌&&◌, ◌||◌, Option, none, some,
  inl, inr, List, [], ◌∷◌, ◌++◌, arith, eq_iff, eq_refl, ◌==◌, is_some, Bool-cases, Option-cases,
}
use zk_dpp_royalty_protocol.Metering.Types.{
  Status, draft, finalized, paid, BlockchainStatus, not_submitted, pending, submitted,
  chain_finalized, disputed, chain_paid, failed, SettlementStatement,
}
use zk_dpp_royalty_protocol.Metering.Settlement.{
  Statements, TxResult, is_draft, find, update, finalize_row, finalize_statement, post_finalize,
  set_status, set_submission, set_finalization,
}
use zk_dpp_royalty_protocol.Metering.Settlement.Rows.{
  KeepsId, find-update, find-append, finalize_row-KeepsId, set_status-KeepsId,
  set_submission-KeepsId, set_finalization-KeepsId,
}
use zk_dpp_royalty_protocol.Metering.Statement.New.{IsNew, generate_statement-cases}
use zk_dpp_royalty_protocol.Metering.Chain.{
  Submission, Request, World, is_finalized, is_submitted, submission_of, submit_on_chain,
}
use zk_dpp_royalty_protocol.Metering.Chain.Cases.{
  marked_failed, sent, submit_on_chain-cases, finalize_on_chain-cases,
}
use zk_dpp_royalty_protocol.Metering.Chain.Run.{
  Call, generate, finalize, to_chain, settle, step, run, run-keeps,
}

abbrev pub is_paid : Status → Bool
is_paid paid = true
is_paid _ = false

-- The pairs that occur.
abbrev pub allowed : Status → BlockchainStatus → Bool
allowed s failed = true
allowed paid chain_finalized = true
allowed draft not_submitted = true
allowed finalized not_submitted = true
allowed finalized pending = true
allowed finalized submitted = true
allowed _ _ = false

-- `a` implies `b`.
abbrev pub implies : Bool → Bool → Bool
implies a b = not a || b

-- The two statuses fit together; a row has an instant of finalization exactly if it is not a draft,
-- and one of settlement on the chain exactly if it is PAID; a row that is SUBMITTED or PAID has a
-- transaction and the instant of its submission.
pub record IsSound (st : SettlementStatement) : Type 0 where
  pub fits : allowed st.status st.blockchain_status ≡ true
  pub dated : is_some st.finalized_at ≡ not (is_draft st.status)
  pub settled : is_some st.chain_finalized_at ≡ is_paid st.status
  pub traced :
      implies
        (is_submitted st.blockchain_status || is_paid st.status)
        (is_some st.tx_hash && is_some st.chain_submitted_at)
      ≡ true

allowed-draft : (b : BlockchainStatus) → allowed draft b ≡ true → allowed finalized b ≡ true
allowed-draft not_submitted h = refl
allowed-draft pending h = absurd (cc h)
allowed-draft submitted h = absurd (cc h)
allowed-draft chain_finalized h = absurd (cc h)
allowed-draft disputed h = absurd (cc h)
allowed-draft chain_paid h = absurd (cc h)
allowed-draft failed h = refl

draft-of : (s : Status) → is_draft s ≡ true → s ≡ draft
draft-of draft h = refl
draft-of finalized h = absurd (cc h)
draft-of paid h = absurd (cc h)

submitted-eq : (b : BlockchainStatus) → is_submitted b ≡ true → b ≡ submitted
submitted-eq submitted h = refl
submitted-eq not_submitted h = absurd (cc h)
submitted-eq pending h = absurd (cc h)
submitted-eq chain_finalized h = absurd (cc h)
submitted-eq disputed h = absurd (cc h)
submitted-eq chain_paid h = absurd (cc h)
submitted-eq failed h = absurd (cc h)

submitted-of : (s : Status) → allowed s submitted ≡ true → s ≡ finalized
submitted-of finalized k = refl
submitted-of draft k = absurd (cc k)
submitted-of paid k = absurd (cc k)

finalized-of : (s : Status) → is_finalized s ≡ true → s ≡ finalized
finalized-of finalized k = refl
finalized-of draft k = absurd (cc k)
finalized-of paid k = absurd (cc k)

finalize_row-IsSound :
    (now : ℕ) (st : SettlementStatement) → IsSound st → IsSound (finalize_row now st)
unfolding finalize_row
finalize_row-IsSound now st h = elim (Bool-cases (is_draft st.status)) [
  | inr n ↦ rw (n, finalize_row) h
  | inl y ↦
      let d = draft-of st.status y in
      let fits = subst (λ s. allowed s st.blockchain_status ≡ true) d h.fits in
      let settled = subst (λ s. is_some st.chain_finalized_at ≡ is_paid s) d h.settled in
      let traced =
        subst
          (λ s.
            implies (is_submitted st.blockchain_status || is_paid s)
              (is_some st.tx_hash && is_some st.chain_submitted_at)
            ≡ true)
          d h.traced in
      rw (y, finalize_row)
        (record {
          fits = allowed-draft st.blockchain_status fits;
          dated = refl;
          settled = settled;
          traced = traced;
        })
]

set_failed-IsSound : (st : SettlementStatement) → IsSound st → IsSound (set_status failed none st)
unfolding set_status
set_failed-IsSound st h = record {
  fits = refl;
  dated = h.dated;
  settled = h.settled;
  traced = ground (arith, h.traced);
}

set_pending-IsSound :
    (wallet : String) (st : SettlementStatement)
    → is_finalized st.status ≡ true
    → IsSound st
    → IsSound (set_status pending (some wallet) st)
unfolding set_status
set_pending-IsSound wallet st f h =
    let e = finalized-of st.status f in
    record {
      fits = ap (λ s. allowed s pending) e;
      dated = h.dated;
      settled = h.settled;
      traced = ground (arith, h.traced);
    }

set_submission-IsSound :
    (tx : TxResult) (now : ℕ) (st : SettlementStatement)
    → is_finalized st.status ≡ true
    → IsSound st
    → IsSound (set_submission tx submitted now st)
unfolding set_submission
set_submission-IsSound tx now st f h = record {
  fits = ap (λ s. allowed s submitted) (finalized-of st.status f);
  dated = h.dated;
  settled = h.settled;
  traced = refl;
}

set_finalization-IsSound :
    (now : ℕ) (st : SettlementStatement)
    → is_submitted st.blockchain_status ≡ true
    → IsSound st
    → IsSound (set_finalization now st)
unfolding set_finalization
set_finalization-IsSound now st b h =
    let fits =
      subst (λ x. allowed st.status x ≡ true) (submitted-eq st.blockchain_status b) h.fits in
    record {
      fits = refl;
      dated = h.dated ∙ ap (λ s. not (is_draft s)) (submitted-of st.status fits);
      settled = refl;
      traced = ground (arith, b, h.traced);
    }

abbrev SoundRow : Option SettlementStatement → Type 0
SoundRow none = Unit
SoundRow (some st) = IsSound st

-- Every row that a query can find is sound.
abbrev pub SoundTable : Statements → Type 0
SoundTable sts = (j : String) → SoundRow (find j sts)

update-Sound :
    (i : String) (f : SettlementStatement → SettlementStatement) (sts : Statements)
    → KeepsId f
    → ((st : SettlementStatement) → find i sts ≡ some st → IsSound st → IsSound (f st))
    → SoundTable sts
    → SoundTable (update i f sts)
update-Sound i f sts keeps sound h j =
    rw (find-update i j f sts keeps) (elim (Bool-cases (i == j)) [
      | inr n ↦ rw n (h j)
      | inl y ↦ elim (Option-cases (find j sts)) [
        | inl k ↦ rw (y, k) tt
        | inr (st, k) ↦
            rw (y, k) (sound st (ground (arith, eq_iff i j, k)) (subst SoundRow k (h j)))
      ]
    ])

append-Sound :
    (sts : Statements) (st : SettlementStatement)
    → IsSound st
    → SoundTable sts
    → SoundTable (sts ++ st ∷ [])
append-Sound sts st new h j = rw (find-append j sts st) (elim (Option-cases (find j sts)) [
  | inl k ↦ rw k (elim (Bool-cases (st.id == j)) [ inl y ↦ rw y new | inr n ↦ rw n tt ])
  | inr (old, k) ↦ rw k (subst SoundRow k (h j))
])

IsNew-IsSound : (st : SettlementStatement) → IsNew st → IsSound st
IsNew-IsSound st new = record {
  fits = rw (new.drafted, new.unsubmitted) refl;
  dated = rw (new.drafted, new.not_finalized) refl;
  settled = rw (new.drafted, new.not_settled) refl;
  traced = rw (new.drafted, new.unsubmitted) refl;
}

-- The row that a submission has marked is still a FINALIZED one.
sent-finalized :
    (req : Request) (id wallet : String) (w : World) (st row : SettlementStatement) (s : Submission)
    → find id w.statements ≡ some st
    → is_finalized st.status ≡ true
    → find id (sent req id wallet w s).statements ≡ some row
    → is_finalized row.status ≡ true
unfolding set_status
sent-finalized req id wallet w st row s found f h = ground (
  arith,
  f,
  h,
  found,
  eq_refl id,
  find-update id id (set_status pending (some wallet)) w.statements
      (set_status-KeepsId pending (some wallet)),
)

abbrev SoundAfter : {A : Type 0} → A × World → Type 0
SoundAfter r = SoundTable r.1.statements

marked-Sound :
    (id : String) (w : World) → SoundTable w.statements → SoundTable (marked_failed id w).statements
marked-Sound id w h =
    update-Sound id (set_status failed none) w.statements (set_status-KeepsId failed none)
      (λ st k s. set_failed-IsSound st s) h

submit-Sound :
    (req : Request) (id wallet : String) (w : World)
    → SoundTable w.statements
    → SoundAfter (submit_on_chain req id wallet w)
submit-Sound req id wallet w h =
    submit_on_chain-cases req id SoundAfter wallet w (λ c e l. h) (λ e. h)
      (λ e. marked-Sound id w h)
      (λ st found (f, n) amount.
        let s = submission_of req id wallet st amount in
        let w' = sent req id wallet w s in
        let first =
          update-Sound id (set_status pending (some wallet)) w.statements
            (set_status-KeepsId pending (some wallet))
            (λ row k. set_pending-IsSound wallet row (ground (arith, f, sym k ∙ found))) h in
        (
          λ e. (first, marked-Sound id w' first),
          λ tx.
              update-Sound id (set_submission tx submitted req.now) w'.statements
                (set_submission-KeepsId tx submitted req.now)
                (λ row k.
                  set_submission-IsSound tx req.now row
                    (sent-finalized req id wallet w st row s found f k))
                first,
        ))

step-Sound : (c : Call) (w : World) → SoundTable w.statements → SoundTable (step c w).statements
unfolding step post_finalize finalize_statement
step-Sound (generate registry pg i now input rows) w h =
    generate_statement-cases SoundTable registry pg i now input rows w.statements h
      (λ st new. append-Sound w.statements st (IsNew-IsSound st new) h)
step-Sound (finalize i now) w h =
    update-Sound i (finalize_row now) w.statements (finalize_row-KeepsId now)
      (λ st k. finalize_row-IsSound now st) h
step-Sound (to_chain req i wallet) w h = submit-Sound req i wallet w h
step-Sound (settle req i) w h =
    finalize_on_chain-cases req i SoundAfter w (λ reply. h)
      (λ st found b tx.
        update-Sound i (set_finalization req.now) w.statements (set_finalization-KeepsId req.now)
          (λ row k. set_finalization-IsSound req.now row (ground (arith, b, sym k ∙ found))) h)

-- Requests that are handled one after the other, with whatever errors of the queries and of the
-- contract, keep every row sound: its two statuses fit together, the instants of finalization and
-- settlement are there exactly when its status says so, and a SUBMITTED or PAID row has a
-- transaction.
pub run-Sound :
    (cs : List Call) (w : World) → SoundTable w.statements → SoundTable (run cs w).statements
run-Sound cs w h = run-keeps (λ w'. SoundTable w'.statements) step-Sound cs w h
