-- ===== src/Predicates/Generator/Battery.antt =====
-- packages/predicate-lib/src/generate-battery-predicates.ts: the batch of the predicates of the EU
-- Battery Regulation. What the script prints is left out.
mod Capacity
mod Lifetime
use zk_dpp_royalty_protocol.Common.{
  ℕ, String, Bool, true, not, ◌&&◌, ◌≡◌, refl, List, [], ◌∷◌, leb, ltb, all,
}
use zk_dpp_royalty_protocol.Common.Exec.{Exec}
use zk_dpp_royalty_protocol.Predicates.Generator.Types.{
  PredicateConfig, range, set_membership, timestamp, dual_range, lifecycle, RangeComparison, gte,
  lte,
}
use zk_dpp_royalty_protocol.Predicates.Generator.Texts.{Templates}
use zk_dpp_royalty_protocol.Predicates.Generator.Files.{World, missing, generate_predicates}
use zk_dpp_royalty_protocol.Predicates.Generator.Batch.{IsComplete, generate_predicates-IsComplete}
use zk_dpp_royalty_protocol.Predicates.Generator.Battery.Capacity.{
  battery_capacity_gte_v1, battery_chemistry_in_set_v1, cobalt_origin_not_in_v1,
  due_diligence_valid_v1,
}
use zk_dpp_royalty_protocol.Predicates.Generator.Battery.Lifetime.{
  energy_density_range_v1, state_of_health_gte_v1, recycling_efficiency_gte_v1,
  carbon_footprint_lifecycle_v1,
}

abbrev pub battery_predicates : List PredicateConfig
battery_predicates =
    battery_capacity_gte_v1 ∷ battery_chemistry_in_set_v1 ∷ cobalt_origin_not_in_v1
    ∷ due_diligence_valid_v1 ∷ energy_density_range_v1 ∷ state_of_health_gte_v1
    ∷ recycling_efficiency_gte_v1 ∷ carbon_footprint_lifecycle_v1 ∷ []

module _ (lower : String → String) (show : ℕ → String) (templates_dir : String)
    (templates : Templates) where
  -- The call of the script.
  pub generate_battery_predicates : Exec World (Unit {0})
  generate_battery_predicates =
      generate_predicates lower show templates_dir templates battery_predicates

  -- Whatever the templates are, the batch keeps every registered predicate's circuit on the disk.
  pub generate_battery_predicates-IsComplete :
      (w : World)
      → IsComplete lower show templates_dir templates w
      → IsComplete lower show templates_dir templates (generate_battery_predicates w).1
  unfolding generate_battery_predicates
  generate_battery_predicates-IsComplete w complete =
      generate_predicates-IsComplete lower show templates_dir templates battery_predicates w
        complete

abbrev passes : RangeComparison → (value threshold : ℕ) → Bool
passes gte value threshold = leb threshold value
passes lte value threshold = leb value threshold

-- What the tests of a generated circuit need of the test vectors, where these are numbers.
abbrev pub vectors_hold : PredicateConfig → Bool
vectors_hold (range c) =
    let v = c.test_vectors in
    passes c.comparison v.valid_value v.valid_threshold
    && not (passes c.comparison v.invalid_value v.invalid_threshold)
vectors_hold (set_membership c) = leb c.test_vectors.set_size c.max_set_size
vectors_hold (timestamp c) = true
vectors_hold (dual_range c) =
    let v = c.test_vectors in
    leb v.min_threshold v.valid_value
    && (leb v.valid_value v.max_threshold
        && (ltb v.below_min_value v.min_threshold && ltb v.max_threshold v.above_max_value))
vectors_hold (lifecycle c) = true

-- The configurations' valid values pass their thresholds and the invalid ones do not.
battery-vectors_hold : all vectors_hold battery_predicates ≡ true
battery-vectors_hold = refl
