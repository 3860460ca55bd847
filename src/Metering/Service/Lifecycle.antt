-- ===== src/Metering/Service/Lifecycle.antt =====
-- A statement from its creation to its finalization, through the routes.
use mathlib.Core.Option.{get_or}
use zk_dpp_royalty_protocol.Common.{
  ℕ, String, Bool, true, false, ◌≡◌, refl, ◌∙◌, ap, inl, inr, none, some, Option, [], ◌∷◌, ◌++◌,
  ◌==◌, arith, eq_refl, Bool-cases,
}
use zk_dpp_royalty_protocol.Common.Results.{Result, ok, err}
use zk_dpp_royalty_protocol.Predicates.{Registry}
use zk_dpp_royalty_protocol.Metering.Types.{
  SettlementStatement, GenerateStatementRequest, draft, finalized,
}
use zk_dpp_royalty_protocol.Metering.Usage.{Usages}
use zk_dpp_royalty_protocol.Metering.Statement.{Driver}
use zk_dpp_royalty_protocol.Metering.Statement.New.{generate_statement-made}
use zk_dpp_royalty_protocol.Metering.Settlement.{
  Statements, StatementReply, is_draft, find, update, update_row, finalize_row, finalize_statement,
  post_finalize,
}
use zk_dpp_royalty_protocol.Metering.Settlement.Rows.{
  find-append, find-update, finalize_row-KeepsId,
}
use zk_dpp_royalty_protocol.Metering.Service.{
  created, statement_reply, found, post_settlement, get_settlement,
}

abbrev reply_statement : StatementReply → Option SettlementStatement
reply_statement r = r.statement

abbrev succeeded : StatementReply → Bool
succeeded r = r.success

created-ok :
    (r : Result SettlementStatement) (st : SettlementStatement)
    → statement_reply r ≡ created st
    → r ≡ ok st
created-ok (ok st') st h = ap (λ x. ok (get_or x st)) (ap reply_statement h)
created-ok (err e) st h = absurd (ground (arith, ap succeeded h))

-- The answers of GET /settlements/:id and of two requests to finalize the statement.
pub record IsLive (st : SettlementStatement) (sts : Statements) : Type 0 where
  pub shown : get_settlement st.id sts ≡ found st
  pub finalizes :
      (now : ℕ)
      → (post_finalize st.id now sts).0 ≡ record {
        code = 200;
        success = true;
        statement = some (record st { status = finalized; finalized_at = some now });
        error = none;
      }
  pub then_shown :
      (now : ℕ)
      → get_settlement st.id (post_finalize st.id now sts).1
        ≡ found (record st { status = finalized; finalized_at = some now })
  pub finalizes_once :
      (now later : ℕ)
      → post_finalize st.id later (post_finalize st.id now sts).1 ≡ (
        record {
          code = 404;
          success = false;
          statement = none;
          error = some "Statement not found or already finalized";
        },
        (post_finalize st.id now sts).1,
      )

finalize_row-again :
    (id : String) (now later : ℕ) (st : SettlementStatement)
    → update_row id (finalize_row later) (update_row id (finalize_row now) st)
      ≡ update_row id (finalize_row now) st
unfolding finalize_row
finalize_row-again id now later st = elim (Bool-cases (st.id == id)) [
  | inr e ↦ rw (e, e) refl
  | inl e ↦ elim (Bool-cases (is_draft st.status)) [
    | inl d ↦ rw (e, d, e) refl
    | inr d ↦ rw (e, d, e, d) refl
  ]
]

update-finalize_row :
    (id : String) (now later : ℕ) (sts : Statements)
    → update id (finalize_row later) (update id (finalize_row now) sts)
      ≡ update id (finalize_row now) sts
unfolding update
update-finalize_row id now later [] = refl
update-finalize_row id now later (st ∷ sts) =
    rw (finalize_row-again id now later st, update-finalize_row id now later sts) refl

module _ (st : SettlementStatement) (sts : Statements) (here : find st.id sts ≡ some st)
    (drafted : st.status ≡ draft) where
  after-find :
      (now : ℕ)
      → find st.id (update st.id (finalize_row now) sts)
        ≡ some (record st { status = finalized; finalized_at = some now })
  unfolding finalize_row
  after-find now =
      find-update st.id st.id (finalize_row now) sts (finalize_row-KeepsId now)
      ∙ rw (eq_refl st.id, here, drafted) refl

  finalized_again :
      (now later : ℕ)
      → post_finalize st.id later (update st.id (finalize_row now) sts) ≡ (
        record {
          code = 404;
          success = false;
          statement = none;
          error = some "Statement not found or already finalized";
        },
        update st.id (finalize_row now) sts,
      )
  unfolding post_finalize finalize_statement
  finalized_again now later = rw (after-find now, update-finalize_row st.id now later sts) refl

  draft-IsLive : IsLive st sts
  unfolding get_settlement post_finalize finalize_statement finalize_row
  draft-IsLive = record {
    shown = rw here refl;
    finalizes = λ now. rw (here, drafted) refl;
    then_shown = λ now. rw (after-find now) refl;
    finalizes_once = λ now later. finalized_again now later;
  }

-- After a successful POST /settlements under a new identifier, the statement is read back as it was
-- answered; one request finalizes it, and any further one changes nothing.
pub made-IsLive :
    (registry : Registry) (pg : Driver) (fault : Option String) (id : String) (now : ℕ)
    (input : GenerateStatementRequest) (rows : Usages) (sts : Statements) (st : SettlementStatement)
    → find id sts ≡ none
    → (post_settlement registry pg fault id now input rows sts).0 ≡ created st
    → IsLive st (post_settlement registry pg fault id now input rows sts).1
unfolding post_settlement
made-IsLive registry pg (some e) id now input rows sts st new h =
    absurd (ground (arith, ap succeeded h))
made-IsLive registry pg none id now input rows sts st new h =
    let (same, drafted, table) =
      generate_statement-made registry pg id now input rows sts st (created-ok _ st h) in
    rw table (
      draft-IsLive st (sts ++ st ∷ [])
        (find-append st.id sts st ∙ rw (ap (λ j. find j sts) same ∙ new, eq_refl st.id) refl)
        drafted)
