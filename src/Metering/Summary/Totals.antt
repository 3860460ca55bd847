-- ===== src/Metering/Summary/Totals.antt =====
-- What a usage summary counts and adds up, with any driver.
use mathlib.Core.List.{foldl}
use zk_dpp_royalty_protocol.Common.{
  ℕ, String, ◌≡◌, Option, none, some, List, [], ◌∷◌, map, filter, length, ◌==◌,
}
use zk_dpp_royalty_protocol.Common.JsMap
use zk_dpp_royalty_protocol.Common.Doubles.{plus}
use zk_dpp_royalty_protocol.Metering.Usage.{Usages}
use zk_dpp_royalty_protocol.Metering.Statement.{Driver}
use zk_dpp_royalty_protocol.Metering.Summary.{PredicateUsage, parsed_price}

-- The sum of doubles from the left, from a first one.
abbrev pub double_sum : ℕ → List ℕ → ℕ
double_sum a ps = foldl plus a ps

module _ (pg : Driver) (order : Usages → Usages) (parse_float : String → ℕ) where
  abbrev pub prices : Usages → List ℕ
  prices us = map (parsed_price pg order parse_float) us

  -- What the summary should have for a predicate with these usages.
  abbrev pub usage_for : Usages → Option PredicateUsage
  usage_for [] = none
  usage_for (u ∷ us) = some (record {
    predicate_id = u.predicate_id;
    count = length (u ∷ us);
    amount = double_sum 0 (prices (u ∷ us));
  })

  -- The entries of a summary are the values of a map.
  pub record HasEntries (usages : Usages) (entries : List PredicateUsage) : Type 0 where
    pub entry_map : List (String × PredicateUsage)
    pub values_are : entries ≡ JsMap.values entry_map
    pub entry_is :
        (k : String) → JsMap.get k entry_map ≡ usage_for (filter (λ u. u.predicate_id == k) usages)
