-- ===== src/Metering/Summary/Tests.antt =====
-- A summary, and an instance of the theorem on summaries.

use mathlib.Core.List.Perm
use zk_dpp_royalty_protocol.Common.{
  ℕ, zero, suc, ◌+◌, ◌*◌, String, ◌≡◌, refl, none, [], ◌∷◌, Option,
}
use Prim.Native.Nat.{◌^◌}
use zk_dpp_royalty_protocol.Common.Doubles.{plus, round}
use zk_dpp_royalty_protocol.Predicates.{eur}
use zk_dpp_royalty_protocol.Metering.Types.{Amount, txt}
use zk_dpp_royalty_protocol.Metering.Usage.{Usages}
use zk_dpp_royalty_protocol.Metering.Statement.{Driver}
use zk_dpp_royalty_protocol.Metering.Summary.{UsageSummary, get_usage_summary}
use zk_dpp_royalty_protocol.Metering.Summary.Totals.{double_sum}

-- A driver that returns an amount as a text, here as so many strokes.
abbrev strokes : ℕ → String
strokes zero = ""
strokes (suc n) = String.◌∷◌ "|" (strokes n)

abbrev count_strokes : String → ℕ
count_strokes String.[] = 0
count_strokes (String.◌∷◌ c s) = suc (count_strokes s)

abbrev nothing : Amount → Option ℕ
nothing a = none

abbrev pg : Driver
pg = record {
  read_decimal = λ n. txt (strokes n);
  write_decimal = nothing;
  show = strokes;
  order_by = λ us. us;
}

abbrev in_order : Usages → Usages
in_order us = us

abbrev rows : Usages
rows =
    record {
      id = "u-1";
      event_id = "e-1";
      supplier_id = "s-1";
      brand_id = none;
      predicate_id = "CARBON_V1";
      receipt_id = "r-1";
      verified_at = 150;
      price_per_verification = 5;
      currency = eur;
      recorded_at = 160;
    }
    ∷ []

abbrev summary : UsageSummary
summary = get_usage_summary pg in_order count_strokes "s-1" none none rows

-- parseFloat("0.0500") and parseFloat("0.1500"), in units of 2 ^ -1074
abbrev five_cents : ℕ
five_cents = 3_602_879_701_896_397 * 2 ^ 1_018

abbrev fifteen_cents : ℕ
fifteen_cents = 5_404_319_552_844_595 * 2 ^ 1_019

-- 0.05 + 0.05 + 0.05 is not 0.15 but the next double.
three_usages : double_sum 0 (five_cents ∷ five_cents ∷ five_cents ∷ []) ≡ fifteen_cents + 2 ^ 1_019
unfolding plus round
three_usages = refl
