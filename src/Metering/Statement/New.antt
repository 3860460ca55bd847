-- ===== src/Metering/Statement/New.antt =====
-- What `generateStatement` leaves in the table, with any driver.
use zk_dpp_royalty_protocol.Common.{
  ℕ, String, ◌≡◌, refl, sym, ap, inl, inr, none, ◌∷◌, [], List, ◌++◌, Option-cases, Bool-cases, any,
  ◌==◌,
}
use zk_dpp_royalty_protocol.Common.Results.{Result, ok, err}
use zk_dpp_royalty_protocol.Predicates.{Registry}
use zk_dpp_royalty_protocol.Metering.Types.{
  SettlementStatement, GenerateStatementRequest, draft, not_submitted,
}
use zk_dpp_royalty_protocol.Metering.Usage.{Usages}
use zk_dpp_royalty_protocol.Metering.Statement.{
  Driver, usages_of, breakdown_of, total_of, new_statement, generate_statement,
}

-- A draft that has not been near the chain.
pub record IsNew (st : SettlementStatement) : Type 0 where
  pub drafted : st.status ≡ draft
  pub unsubmitted : st.blockchain_status ≡ not_submitted
  pub not_finalized : st.finalized_at ≡ none
  pub no_tx : st.tx_hash ≡ none
  pub not_sent : st.chain_submitted_at ≡ none
  pub not_settled : st.chain_finalized_at ≡ none

pub generate_statement-cases {ℓ} :
    (P : List SettlementStatement → Type ℓ) (registry : Registry) (pg : Driver) (id : String)
    (now : ℕ) (input : GenerateStatementRequest) (rows : Usages)
    (statements : List SettlementStatement)
    → P statements
    → ((st : SettlementStatement) → IsNew st → P (statements ++ st ∷ []))
    → P (generate_statement registry pg id now input rows statements).1
unfolding generate_statement new_statement
generate_statement-cases P registry pg id now input rows statements refused inserted =
    let usages = usages_of registry pg input rows in
    elim (Option-cases
      (pg.write_decimal (total_of registry pg (breakdown_of registry pg usages)))) [
        | inl h ↦ rw (h, generate_statement) refused
        | inr (total, h) ↦ elim (Bool-cases (any (λ st. st.id == id) statements)) [
          | inl d ↦ rw (h, d, generate_statement) refused
          | inr d ↦
              rw (h, d, generate_statement)
                (inserted (new_statement registry pg id now input usages total) (record {
                  drafted = refl;
                  unsubmitted = refl;
                  not_finalized = refl;
                  no_tx = refl;
                  not_sent = refl;
                  not_settled = refl;
                }))
        ]
      ]

abbrev made_or : SettlementStatement → Result SettlementStatement → SettlementStatement
made_or d (ok st) = st
made_or d (err e) = d

-- A statement that is made goes to the end of the table, as a draft with the given identifier.
pub generate_statement-made :
    (registry : Registry) (pg : Driver) (id : String) (now : ℕ) (input : GenerateStatementRequest)
    (rows : Usages) (statements : List SettlementStatement) (st : SettlementStatement)
    → (generate_statement registry pg id now input rows statements).0 ≡ ok st
    → (st.id ≡ id)
      × (st.status ≡ draft)
      × ((generate_statement registry pg id now input rows statements).1 ≡ statements ++ st ∷ [])
unfolding generate_statement new_statement
generate_statement-made registry pg id now input rows statements st =
    let usages = usages_of registry pg input rows in
    elim (Option-cases
      (pg.write_decimal (total_of registry pg (breakdown_of registry pg usages)))) [
        | inl h ↦ rw (h, generate_statement) (λ e. absurd (cc e))
        | inr (total, h) ↦ elim (Bool-cases (any (λ st. st.id == id) statements)) [
          | inl d ↦ rw (h, d, generate_statement) (λ e. absurd (cc e))
          | inr d ↦
              let new = new_statement registry pg id now input usages total in
              rw (h, d, generate_statement)
                (λ e.
                  let same : new ≡ st = ap (made_or st) e in
                  (
                    sym (ap (λ s. s.id) same),
                    sym (ap (λ s. s.status) same),
                    ap (λ s. statements ++ s ∷ []) same,
                  ))
        ]
      ]
