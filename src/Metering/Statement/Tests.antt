-- ===== src/Metering/Statement/Tests.antt =====
-- Statements made with each of the two drivers, and instances of the theorems on statements.
use Prim.Native.Char.{code}
use mathlib.Core.List.Perm
use text.Mathlib.TextLemmas.{nil-append, cons-append}
use zk_dpp_royalty_protocol.Common.{
  ℕ, zero, suc, ◌≡◌, refl, ap, eqb, String, Option, none, some, [], ◌∷◌, arith, filter, length, leb,
  if◌then◌else◌,
}
use zk_dpp_royalty_protocol.Common.JsMap
use zk_dpp_royalty_protocol.Common.Group.{group, put, sum_of}
use zk_dpp_royalty_protocol.Common.Results.{ok, err}
use zk_dpp_royalty_protocol.Predicates.{Registry, eur, ◌⧺◌}
use zk_dpp_royalty_protocol.Metering.Types.{
  VerificationUsage, Amount, num, txt, SettlementStatement, GenerateStatementRequest, draft,
}
use zk_dpp_royalty_protocol.Metering.Usage.{Usages}
use zk_dpp_royalty_protocol.Metering.Statement.{
  Driver, entry_key, in_period, new_breakdown, count_usage, usages_of, new_statement, breakdown_of,
  total_of, generate_statement,
}
use zk_dpp_royalty_protocol.Metering.Statement.Totals.{
  ReadsBack, price, generate_statement-totals, entry_for, of_key, breakdown-entry,
}
use zk_dpp_royalty_protocol.Metering.Settlement.{find}
use zk_dpp_royalty_protocol.Metering.Service.{created, post_settlement}
use zk_dpp_royalty_protocol.Metering.Service.Lifecycle.{IsLive, made-IsLive}
use zk_dpp_royalty_protocol.Metering.Statement.Drivers.{dots, IsTextual, generate_statement-textual}

abbrev carbon_usage : (id event_id : String) (verified_at : ℕ) → VerificationUsage
carbon_usage id event_id verified_at = record {
  id = id;
  event_id = event_id;
  supplier_id = "s-1";
  brand_id = some "b-1";
  predicate_id = "CARBON_V1";
  receipt_id = "r-1";
  verified_at = verified_at;
  price_per_verification = 500;
  currency = eur;
  recorded_at = 900;
}

abbrev rows : Usages
rows =
    carbon_usage "u-1" "e-1" 100
    ∷ carbon_usage "u-2" "e-2" 150
    ∷ carbon_usage "u-3" "e-3" 200  -- at the end of the period, which it is not part of
    ∷ []

abbrev period : GenerateStatementRequest
period = record { supplier_id = "s-1"; period_start = 100; period_end = 200 }

abbrev no_predicates : Registry
no_predicates = []

-- A price as a text: a point and as many strokes. PostgreSQL refuses a second point.
abbrev strokes : ℕ → String
strokes zero = ""
strokes (suc n) = String.◌∷◌ "|" (strokes n)

abbrev count_strokes : String → ℕ
count_strokes String.[] = 0
count_strokes (String.◌∷◌ c s) =
    if eqb (code c) b'|' then suc (count_strokes s) else count_strokes s

abbrev decimal : ℕ → String
decimal n = String.◌∷◌ "." (strokes n)

abbrev write_text : Amount → Option ℕ
write_text (num n) = some n
write_text (txt s) = if leb 2 (dots s) then none else some (count_strokes s)

abbrev textual_pg : Driver
textual_pg = record {
  read_decimal = λ n. txt (decimal n);
  write_decimal = write_text;
  show = λ n. "0";
  order_by = λ us. us;
}

count-strokes : (n : ℕ) → count_strokes (strokes n) ≡ n
count-strokes zero = refl
count-strokes (suc n) = ap suc (count-strokes n)

dots-strokes : (n : ℕ) → dots (strokes n) ≡ 0
dots-strokes zero = refl
dots-strokes (suc n) = omega (arith, dots-strokes n)

abbrev textual_pg-IsTextual : IsTextual textual_pg
textual_pg-IsTextual = record {
  decimal = decimal;
  reads = λ n. refl;
  one_point = λ n. omega (arith, dots-strokes n);
  zero_text = refl;
  rejects = λ s h. ground arith;
  reorders = λ us. Perm.refl us;
}

zeros-append : (s : String) → "0" ⧺ "0" ⧺ s ≡ String.◌∷◌ "0" (String.◌∷◌ "0" s)
zeros-append s = rw (cons-append, nil-append, cons-append, nil-append) refl

ReadsBack-textual_pg : ReadsBack textual_pg textual_pg-IsTextual.decimal
ReadsBack-textual_pg = record {
  reads_price = λ n. rw (zeros-append (decimal n), dots-strokes n, count-strokes n) refl;
  reads_zero = refl;
}

abbrev short_period : GenerateStatementRequest
short_period = record period { period_start = 120 }

generate_statement-totals_example :
    let selected = filter (in_period short_period) rows in
    (st : SettlementStatement) × (generate_statement no_predicates textual_pg "st-1" 1000
        short_period rows []
      ≡ (ok st, st ∷ []))
    × (st.total_amount ≡ sum_of price selected)
    × (st.total_verifications ≡ length selected)
    × (sum_of (λ b. b.verification_count) st.breakdown ≡ st.total_verifications)
    × (st.status ≡ draft)
generate_statement-totals_example =
    generate_statement-totals no_predicates textual_pg textual_pg-IsTextual ReadsBack-textual_pg
      "st-1" 1000 short_period rows [] (omega arith) refl

breakdown-entry_example :
    JsMap.get "CARBON_V1:b-1" (
      group entry_key
        (new_breakdown no_predicates textual_pg)
        (count_usage no_predicates textual_pg)
        rows
        [])
    ≡ entry_for no_predicates textual_pg (of_key "CARBON_V1:b-1" rows)
breakdown-entry_example = breakdown-entry no_predicates textual_pg rows "CARBON_V1:b-1"

generate_statement-textual_example :
    generate_statement no_predicates textual_pg "st-1" 1000 period rows []
    ≡ (err "invalid input syntax for type numeric", [])
generate_statement-textual_example =
    generate_statement-textual no_predicates textual_pg textual_pg-IsTextual "st-1" 1000 period rows
      [] (omega arith)

-- the one usage of the shorter period, as a statement
abbrev drafted : SettlementStatement
drafted =
    new_statement no_predicates textual_pg "st-1" 1000 short_period
      (usages_of no_predicates textual_pg short_period rows) 500

drafted-answer :
    (post_settlement no_predicates textual_pg none "st-1" 1000 short_period rows []).0
    ≡ created drafted
unfolding post_settlement generate_statement total_of breakdown_of group usages_of put JsMap.set
    entry_key count_usage JsMap.get new_breakdown
drafted-answer = refl

made-IsLive_example :
    IsLive drafted
      (post_settlement no_predicates textual_pg none "st-1" 1000 short_period rows []).1
unfolding find
made-IsLive_example =
    made-IsLive no_predicates textual_pg none "st-1" 1000 short_period rows [] drafted refl
      drafted-answer
