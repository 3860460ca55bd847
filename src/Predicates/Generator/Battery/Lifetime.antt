-- ===== src/Predicates/Generator/Battery/Lifetime.antt =====
-- packages/predicate-lib/src/generate-battery-predicates.ts: the configurations on energy density,
-- health, recycling and the life cycle.
use zk_dpp_royalty_protocol.Common.{[], ◌∷◌}
use zk_dpp_royalty_protocol.Predicates.{legit_interest, authority, eur, ◌⧺◌}
use zk_dpp_royalty_protocol.Predicates.Generator.Types.{
  PredicateConfig, range, dual_range, lifecycle, gte, u32,
}

abbrev pub energy_density_range_v1 : PredicateConfig
energy_density_range_v1 = dual_range (record {
  base = record {
    name = "ENERGY_DENSITY_RANGE";
    version = "V1";
    description = "Proves battery energy density (Wh/kg) is within declared range";
    claim_type = "energy_density";
    access_groups = legit_interest ∷ authority ∷ [];
    pricing = record { per_verification = 500; currency = eur };
  };
  unit = "Wh/kg";
  value_type = u32;
  range_validation =
      "    // Energy density physical limits: 50-500 Wh/kg (current technology)\n  "
      ⧺ "  assert(actual_value >= 50, \"Energy density below physical minimum\");\n  "
      ⧺ "  assert(actual_value <= 500, \"Energy density above physical maximum\");";
  test_vectors = record {
    min_threshold = 200;
    max_threshold = 300;
    valid_value = 250;
    below_min_value = 180;
    above_max_value = 350;
  };
})

abbrev pub state_of_health_gte_v1 : PredicateConfig
state_of_health_gte_v1 = range (record {
  base = record {
    name = "STATE_OF_HEALTH_GTE";
    version = "V1";
    description = "Proves battery state of health (SOH) percentage is at or above threshold";
    claim_type = "state_of_health";
    access_groups = legit_interest ∷ authority ∷ [];
    pricing = record { per_verification = 500; currency = eur };
  };
  unit = "percent";
  value_type = u32;
  comparison = gte;
  threshold_description = "minimum SOH percentage (0-100)";
  range_validation =
      "    // SOH is a percentage: 0-100\n    assert(actual_value <= 100, \"SOH "
      ⧺ "exceeds 100%\");";
  fail_message = "State of health below threshold";
  test_vectors = record {
    valid_value = 85;
    valid_threshold = 80;
    invalid_value = 65;
    invalid_threshold = 80;
    exact_value = 80;
  };
})

abbrev pub recycling_efficiency_gte_v1 : PredicateConfig
recycling_efficiency_gte_v1 = range (record {
  base = record {
    name = "RECYCLING_EFFICIENCY_GTE";
    version = "V1";
    description =
        "Proves recycling process efficiency meets EU Battery Regulation "
        ⧺ "thresholds (65% by 2025, 70% by 2030)";
    claim_type = "recycling_efficiency";
    access_groups = legit_interest ∷ authority ∷ [];
    pricing = record { per_verification = 500; currency = eur };
  };
  unit = "percent";
  value_type = u32;
  comparison = gte;
  threshold_description = "minimum recycling efficiency percentage";
  range_validation =
      "    // Recycling efficiency is a percentage: 0-100\n    assert(actual_value "
      ⧺ "<= 100, \"Efficiency exceeds 100%\");";
  fail_message = "Recycling efficiency below threshold";
  test_vectors = record {
    valid_value = 72;
    valid_threshold = 65;
    invalid_value = 60;
    invalid_threshold = 65;
    exact_value = 70;
  };
})

abbrev pub carbon_footprint_lifecycle_v1 : PredicateConfig
carbon_footprint_lifecycle_v1 = lifecycle (record {
  base = record {
    name = "CARBON_FOOTPRINT_LIFECYCLE";
    version = "V1";
    description = "Proves total lifecycle carbon footprint across all stages is within threshold";
    claim_type = "carbon_footprint_lifecycle";
    access_groups = legit_interest ∷ authority ∷ [];
    pricing = record { per_verification = 1000; currency = eur };
  };
  metric = "carbon footprint";
  unit = "kg CO2e/kWh";
  num_stages = 5;
  stage_names = "raw materials, manufacturing, transport, use phase, end-of-life";
  stage_validation =
      "    // Each stage must be non-negative (already enforced by u64)\n    // "
      ⧺ "Maximum single stage: 1,000,000 kg CO2e/kWh (sanity check)\n    for i in "
      ⧺ "0..NUM_STAGES {\n        assert(stage_values[i] <= 1000000, \"Single stage "
      ⧺ "exceeds maximum\");\n    }";
  test_vectors = record {
    threshold = 50;
    valid_stages = "[8, 8, 8, 8, 8]";
    invalid_stages = "[15, 15, 15, 15, 15]";
    claim_type_hashes = "[[0x11; 32], [0x11; 32], [0x11; 32], [0x11; 32], [0x11; 32]]";
    unit_hashes = "[[0x20; 32], [0x20; 32], [0x20; 32], [0x20; 32], [0x20; 32]]";
  };
})
