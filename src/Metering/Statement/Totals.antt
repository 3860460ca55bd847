-- ===== src/Metering/Statement/Totals.antt =====
-- What a statement counts and what it adds up.
use mathlib.Core.List.{Perm, foldl}
use native.Mathlib.Nat.{zero-add}
use zk_dpp_royalty_protocol.Common.{
  ℕ, ◌+◌, ◌≤◌, String, ◌≡◌, refl, ap, ◌∙◌, false, Option, none, some, List, [], ◌∷◌, ◌++◌, arith,
  any, filter, length, ◌==◌,
}
use zk_dpp_royalty_protocol.Common.JsMap
use zk_dpp_royalty_protocol.Common.Group.{
  sum_of, put, group, folded, get-group-folded, sum_of-group,
}
use zk_dpp_royalty_protocol.Common.Sums.{sum_of-perm, sum_of-one}
use zk_dpp_royalty_protocol.Common.Results.{ok}
use zk_dpp_royalty_protocol.Predicates.{Registry, ◌⧺◌}
use zk_dpp_royalty_protocol.Metering.Types.{
  VerificationUsage, Amount, num, txt, add, SettlementBreakdown, SettlementStatement,
  GenerateStatementRequest, draft,
}
use zk_dpp_royalty_protocol.Metering.Usage.{Usages}
use zk_dpp_royalty_protocol.Metering.Statement.{
  Driver, entry_key, in_period, new_breakdown, count_usage, breakdown_of, total_of, usages_of,
  new_statement, generate_statement,
}
use zk_dpp_royalty_protocol.Metering.Statement.Drivers.{IsTextual, length-usages_of}

abbrev pub price : VerificationUsage → ℕ
price u = u.price_per_verification

module _ (registry : Registry) (pg : Driver) where
  breakdown-counts :
      (usages : Usages)
      → sum_of (λ b. b.verification_count) (breakdown_of registry pg usages) ≡ length usages
  unfolding breakdown_of
  breakdown-counts usages =
      (sum_of-group entry_key (new_breakdown registry pg) (count_usage registry pg) (λ b. Unit {0})
        (λ b. b.verification_count) (λ u. 1) (unfold new_breakdown in λ u. (tt, refl))
        (unfold count_usage in λ u b h. (tt, omega arith)) usages [] tt).1
      ∙ zero-add _
      ∙ sum_of-one usages

-- PostgreSQL reads a price behind the two zeros that the loops put before it, and it reads zero.
pub record ReadsBack (pg : Driver) (decimal : ℕ → String) : Type 0 where
  pub reads_price : (n : ℕ) → pg.write_decimal (txt (pg.show 0 ⧺ pg.show 0 ⧺ decimal n)) ≡ some n
  pub reads_zero : pg.write_decimal (num 0) ≡ some 0

module _ (registry : Registry) (pg : Driver) (textual : IsTextual pg)
    (back : ReadsBack pg textual.decimal) where
  written :
      (usages : Usages)
      → length usages ≤ 1
      → pg.write_decimal (total_of registry pg (breakdown_of registry pg usages))
        ≡ some (sum_of price usages)
  unfolding total_of breakdown_of group put new_breakdown count_usage JsMap.get JsMap.set
  written [] h = back.reads_zero
  written (u ∷ []) h =
      rw (textual.reads (price u)) (back.reads_price (price u) ∙ ap some (omega arith))
  written (u ∷ v ∷ us) h = absurd (omega (arith, h))

  -- With a driver that reads DECIMAL columns as texts, as node-postgres does, a statement for a
  -- period with at most one usage of the supplier, under a new identifier, is made and stored as a
  -- draft: it has the usage's price, or 0, and counts the usages.
  pub generate_statement-totals :
      (id : String) (now : ℕ) (input : GenerateStatementRequest) (rows : Usages)
      (statements : List SettlementStatement)
      → length (filter (in_period input) rows) ≤ 1
      → any (λ st. st.id == id) statements ≡ false
      → let selected = filter (in_period input) rows in
        (st : SettlementStatement) × (generate_statement registry pg id now input rows statements
          ≡ (ok st, statements ++ st ∷ []))
        × (st.total_amount ≡ sum_of price selected)
        × (st.total_verifications ≡ length selected)
        × (sum_of (λ b. b.verification_count) st.breakdown ≡ st.total_verifications)
        × (st.status ≡ draft)
  unfolding generate_statement new_statement
  generate_statement-totals id now input rows statements few new =
      let usages = usages_of registry pg input rows in
      let reordered : Perm usages (filter (in_period input) rows) =
        unfold usages_of in textual.reorders (filter (in_period input) rows) in
      let same = length-usages_of registry pg textual input rows in
      (
        new_statement registry pg id now input usages (sum_of price usages),
        rw (written usages (omega (arith, same, few)), new, generate_statement) refl,
        sum_of-perm price reordered,
        same,
        breakdown-counts registry pg usages,
        refl,
      )

-- The usages of one key, in their order.
abbrev pub of_key : String → Usages → Usages
of_key k us = filter (λ u. entry_key u == k) us

module _ (registry : Registry) (pg : Driver) where
  -- JavaScript's sum of an amount and the prices of some usages, from the left.
  abbrev pub summed : Amount → Usages → Amount
  summed a us = foldl (λ sum u. add pg.show sum (pg.read_decimal u.price_per_verification)) a us

  -- What the breakdown should have for a key with these usages.
  abbrev pub entry_for : Usages → Option SettlementBreakdown
  entry_for [] = none
  entry_for (u ∷ us) = some (record (new_breakdown registry pg u) {
    verification_count = length (u ∷ us);
    subtotal = summed (num 0) (u ∷ us);
  })

  counted :
      (us : Usages) (b : SettlementBreakdown)
      → foldl (λ v y. count_usage registry pg y v) b us ≡ record b {
        verification_count = b.verification_count + length us;
        subtotal = summed b.subtotal us;
      }
  unfolding count_usage
  counted [] b = ap (λ n. record b { verification_count = n }) (omega arith)
  counted (u ∷ us) b =
      counted us (count_usage registry pg u b)
      ∙ ap (λ n. record b { verification_count = n; subtotal = summed b.subtotal (u ∷ us) })
          (omega arith)

  -- The breakdown has an entry for a key exactly if there are usages with that key; the entry names
  -- the first one's predicate, brand and price, counts them, and its subtotal is what JavaScript's
  -- `+` makes of 0 and their prices as the driver reads them, in the order of the query.
  pub breakdown-entry :
      (usages : Usages) (k : String)
      → JsMap.get k
          (group entry_key (new_breakdown registry pg) (count_usage registry pg) usages [])
        ≡ entry_for (of_key k usages)
  unfolding new_breakdown count_usage
  breakdown-entry usages k =
      get-group-folded entry_key (new_breakdown registry pg) (count_usage registry pg) k usages
      ∙ go (of_key k usages)
    where
      go :
          (us : Usages)
          → folded entry_key (new_breakdown registry pg) (count_usage registry pg) us ≡ entry_for us
      go [] = refl
      go (u ∷ us) = ap some (
          counted us (count_usage registry pg u (new_breakdown registry pg u))
          ∙ ap
              (λ n. record (new_breakdown registry pg u) {
                verification_count = n;
                subtotal = summed (num 0) (u ∷ us);
              })
              (omega arith))
