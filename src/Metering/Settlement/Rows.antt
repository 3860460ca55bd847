-- ===== src/Metering/Settlement/Rows.antt =====
-- What the queries of Metering/Settlement do to the row that a later query finds.
use zk_dpp_royalty_protocol.Common.{
  ℕ, String, ◌≡◌, refl, Option, none, some, inl, inr, [], ◌∷◌, ◌++◌, arith, eq_iff, ◌==◌,
  if◌then◌else◌, Bool-cases,
}
use zk_dpp_royalty_protocol.Metering.Types.{BlockchainStatus, SettlementStatement}
use zk_dpp_royalty_protocol.Metering.Settlement.{
  Statements, TxResult, find, update, finalize_row, set_status, set_submission, set_finalization,
}

abbrev pub map_row :
    (SettlementStatement → SettlementStatement)
    → Option SettlementStatement
    → Option SettlementStatement
map_row f none = none
map_row f (some st) = some (f st)

abbrev pub KeepsId : (SettlementStatement → SettlementStatement) → Type 0
KeepsId f = (st : SettlementStatement) → (f st).id ≡ st.id

pub find-update :
    (id j : String) (f : SettlementStatement → SettlementStatement) (sts : Statements)
    → KeepsId f
    → find j (update id f sts) ≡ (if id == j then map_row f (find j sts) else find j sts)
unfolding find update
find-update id j f [] keeps = ground arith
find-update id j f (st ∷ sts) keeps =
    ground
      (arith, find-update id j f sts keeps, keeps st, eq_iff st.id id, eq_iff st.id j, eq_iff id j)

pub find-append :
    (j : String) (sts : Statements) (st : SettlementStatement)
    → find j (sts ++ st ∷ [])
      ≡ elim (find j sts) [ some old ↦ some old | none ↦ if st.id == j then some st else none ]
unfolding find
find-append j [] st = refl
find-append j (s ∷ sts) st = elim (Bool-cases (s.id == j)) [
  | inl e ↦ rw (e, find) refl
  | inr e ↦ rw (e, find) (find-append j sts st)
]

pub find-id :
    (j : String) (sts : Statements) (st : SettlementStatement) → find j sts ≡ some st → st.id ≡ j
unfolding find
find-id j [] st h = cc
find-id j (s ∷ sts) st h = elim (Bool-cases (s.id == j)) [
  | inl e ↦ ground (arith, eq_iff s.id j)
  | inr e ↦ find-id j sts st (ground arith)
]

pub finalize_row-KeepsId : (now : ℕ) → KeepsId (finalize_row now)
unfolding finalize_row
finalize_row-KeepsId now st = ground arith

pub set_status-KeepsId :
    (s : BlockchainStatus) (wallet : Option String) → KeepsId (set_status s wallet)
unfolding set_status
set_status-KeepsId s wallet st = refl

pub set_submission-KeepsId :
    (tx : TxResult) (s : BlockchainStatus) (now : ℕ) → KeepsId (set_submission tx s now)
unfolding set_submission
set_submission-KeepsId tx s now st = refl

pub set_finalization-KeepsId : (now : ℕ) → KeepsId (set_finalization now)
unfolding set_finalization
set_finalization-KeepsId now st = refl
