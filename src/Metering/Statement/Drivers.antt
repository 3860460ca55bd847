-- ===== src/Metering/Statement/Drivers.antt =====
-- What happens with a driver that returns a DECIMAL column as text, as node-postgres does unless it
-- is told otherwise: `+` joins the texts.
use Prim.Native.Char.{code}
use mathlib.Core.List.{Perm, foldl}
use text.Mathlib.TextLemmas.{nil-append, cons-append}
use zk_dpp_royalty_protocol.Common.{
  ℕ, ◌+◌, ◌≤◌, String, ◌≡◌, refl, ap, ◌∙◌, sym, none, List, [], ◌∷◌, All, arith, eqb, filter,
  length, if◌then◌else◌,
}
use zk_dpp_royalty_protocol.Common.Doubles.{plus}
use zk_dpp_royalty_protocol.Common.Group.{sum_of, sum_of-group}
use zk_dpp_royalty_protocol.Common.Sums.{sum_of-perm, sum_of-one}
use zk_dpp_royalty_protocol.Common.Results.{err}
use zk_dpp_royalty_protocol.Predicates.{Registry, ◌⧺◌}
use zk_dpp_royalty_protocol.Metering.Types.{
  VerificationUsage, Amount, num, txt, add, SettlementBreakdown, SettlementStatement,
  GenerateStatementRequest,
}
use zk_dpp_royalty_protocol.Metering.Usage.{Usages}
use zk_dpp_royalty_protocol.Metering.Statement.{
  Driver, entry_key, in_period, new_breakdown, count_usage, breakdown_of, add_subtotal, total_of,
  usages_of, generate_statement,
}

-- How many decimal points a text has.
abbrev pub dots : String → ℕ
dots String.[] = 0
dots (String.◌∷◌ c s) = (if eqb (code c) b'.' then 1 else 0) + dots s

dots-append : (s t : String) → dots (s ⧺ t) ≡ dots s + dots t
dots-append String.[] t = rw nil-append (omega arith)
dots-append (String.◌∷◌ c s) t = rw cons-append (omega (arith, dots-append s t))

abbrev points : Amount → ℕ
points (num n) = 0
points (txt s) = dots s

-- A DECIMAL(10,4) column reads as a text with one decimal point, zero prints without one, and no
-- text with two decimal points is a number to PostgreSQL.
pub record IsTextual (pg : Driver) : Type 0 where
  pub decimal : ℕ → String
  pub reads : (n : ℕ) → pg.read_decimal n ≡ txt (decimal n)
  pub one_point : (n : ℕ) → dots (decimal n) ≡ 1
  pub zero_text : dots (pg.show 0) ≡ 0
  pub rejects : (s : String) → 2 ≤ dots s → pg.write_decimal (txt s) ≡ none
  pub reorders : (rows : Usages) → Perm (pg.order_by rows) rows

-- An amount that the loop can hold: the initial zero, or a text.
abbrev IsHeld : Amount → Type 0
IsHeld (num n) = n ≡ 0
IsHeld (txt s) = Unit

module _ (registry : Registry) (pg : Driver) (textual : IsTextual pg) where
  add-points :
      (a b : Amount)
      → IsHeld a
      → IsHeld b
      → IsHeld (add pg.show a b) × (points (add pg.show a b) ≡ points a + points b)
  unfolding plus
  add-points (num a) (num b) h k = (rw (h, k) refl, refl)
  add-points (num a) (txt t) h k =
      (tt, rw h (dots-append (pg.show 0) t ∙ ap (λ n. n + dots t) textual.zero_text))
  add-points (txt s) (num b) h k =
      (tt, rw k (dots-append s (pg.show 0) ∙ ap (λ n. dots s + n) textual.zero_text))
  add-points (txt s) (txt t) h k = (tt, dots-append s t)

  count_usage-points :
      (u : VerificationUsage) (b : SettlementBreakdown)
      → IsHeld b.subtotal
      → IsHeld (count_usage registry pg u b).subtotal
        × (points (count_usage registry pg u b).subtotal ≡ points b.subtotal + 1)
  unfolding count_usage
  count_usage-points u b h =
      let price = u.price_per_verification in
      let (held, sum) = add-points b.subtotal (txt (textual.decimal price)) h tt in
      rw (textual.reads price) (held, omega (arith, sum, textual.one_point price))

  foldl-points :
      (bs : List SettlementBreakdown) (a : Amount)
      → IsHeld a
      → All (λ b. IsHeld b.subtotal) bs
      → IsHeld (foldl (add_subtotal registry pg) a bs)
        × (points (foldl (add_subtotal registry pg) a bs)
            ≡ points a + sum_of (λ b. points b.subtotal) bs)
  foldl-points [] a h k = (h, omega arith)
  foldl-points (b ∷ bs) a h (p, k) =
      let (held, sum) = add-points a b.subtotal h p in
      let (held', sum') = foldl-points bs (add pg.show a b.subtotal) held k in (held', omega arith)

  total_of-points :
      (usages : Usages)
      → points (total_of registry pg (breakdown_of registry pg usages)) ≡ length usages
  unfolding total_of breakdown_of
  total_of-points usages =
      let (all, total) =
        sum_of-group entry_key (new_breakdown registry pg) (count_usage registry pg)
          (λ b. IsHeld b.subtotal) (λ b. points b.subtotal) (λ u. 1)
          (unfold new_breakdown in λ u. (refl, refl)) count_usage-points usages [] tt in
      omega (arith, (foldl-points _ (num 0) refl all).1, total, sum_of-one usages)

  write-refused : (a : Amount) → 2 ≤ points a → pg.write_decimal a ≡ none
  write-refused (num n) h = absurd (omega arith)
  write-refused (txt s) h = textual.rejects s h

  pub length-usages_of :
      (input : GenerateStatementRequest) (rows : Usages)
      → length (usages_of registry pg input rows) ≡ length (filter (in_period input) rows)
  unfolding usages_of
  length-usages_of input rows =
      let selected = filter (in_period input) rows in
      sym (sum_of-one (pg.order_by selected))
      ∙ sum_of-perm (λ u. 1) (textual.reorders selected)
      ∙ sum_of-one selected

  -- With a driver that reads DECIMAL columns as texts, no statement can be made for a period with
  -- two or more usages of the supplier: the INSERT is refused and nothing is stored.
  pub generate_statement-textual :
      (id : String) (now : ℕ) (input : GenerateStatementRequest) (rows : Usages)
      (statements : List SettlementStatement)
      → 2 ≤ length (filter (in_period input) rows)
      → generate_statement registry pg id now input rows statements
        ≡ (err "invalid input syntax for type numeric", statements)
  unfolding generate_statement
  generate_statement-textual id now input rows statements h =
      let usages = usages_of registry pg input rows in
      let total = total_of registry pg (breakdown_of registry pg usages) in
      rw (
        write-refused total (omega (arith, total_of-points usages, length-usages_of input rows)),
        generate_statement,
      )
