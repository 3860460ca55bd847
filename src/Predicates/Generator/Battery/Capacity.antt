-- ===== src/Predicates/Generator/Battery/Capacity.antt =====
-- packages/predicate-lib/src/generate-battery-predicates.ts: the configurations on capacity,
-- chemistry, origin and due diligence.
use zk_dpp_royalty_protocol.Common.{[], ◌∷◌}
use zk_dpp_royalty_protocol.Predicates.{legit_interest, authority, eur, ◌⧺◌}
use zk_dpp_royalty_protocol.Predicates.Generator.Types.{
  PredicateConfig, range, set_membership, timestamp, gte, u64, membership, non_membership,
}

abbrev pub battery_capacity_gte_v1 : PredicateConfig
battery_capacity_gte_v1 = range (record {
  base = record {
    name = "BATTERY_CAPACITY_GTE";
    version = "V1";
    description = "Proves battery capacity (Wh) is greater than or equal to declared minimum";
    claim_type = "battery_capacity";
    access_groups = legit_interest ∷ authority ∷ [];
    pricing = record { per_verification = 500; currency = eur };
  };
  unit = "Wh";
  value_type = u64;
  comparison = gte;
  threshold_description = "minimum battery capacity required (Wh)";
  range_validation =
      "    // Battery capacity range: 0 < capacity <= 1,000,000 Wh (1 MWh max)\n   "
      ⧺ " assert(actual_value > 0, \"Capacity must be positive\");\n    "
      ⧺ "assert(actual_value <= 1000000, \"Capacity exceeds 1 MWh maximum\");";
  fail_message = "Battery capacity below threshold";
  test_vectors = record {
    valid_value = 75000;
    valid_threshold = 50000;
    invalid_value = 45000;
    invalid_threshold = 50000;
    exact_value = 50000;
  };
})

abbrev pub battery_chemistry_in_set_v1 : PredicateConfig
battery_chemistry_in_set_v1 = set_membership (record {
  base = record {
    name = "BATTERY_CHEMISTRY_IN_SET";
    version = "V1";
    description =
        "Proves battery chemistry is one of the allowed types (LFP, NMC, NCA, LTO, Na-ion)";
    claim_type = "battery_chemistry";
    access_groups = legit_interest ∷ authority ∷ [];
    pricing = record { per_verification = 500; currency = eur };
  };
  membership_type = membership;
  set_description = "allowed battery chemistry types";
  set_element_description = "chemistry type hashes";
  max_set_size = 16;
  domain_separator = "[0x42, 0x43, 0x48, 0x4D]";
  fail_message = "Battery chemistry not in allowed set";
  test_vectors = record {
    set_elements =
        "[[0x4C, 0x46, 0x50, 0x00, 0, 0, 0, 0, 0, 0, 0, 0, 0, 0, 0, 0, 0, 0, 0, 0, "
        ⧺ "0, 0, 0, 0, 0, 0, 0, 0, 0, 0, 0, 0], [0x4E, 0x4D, 0x43, 0x00, 0, 0, 0, 0, "
        ⧺ "0, 0, 0, 0, 0, 0, 0, 0, 0, 0, 0, 0, 0, 0, 0, 0, 0, 0, 0, 0, 0, 0, 0, 0], "
        ⧺ "[0; 32], [0; 32], [0; 32], [0; 32], [0; 32], [0; 32], [0; 32], [0; 32], "
        ⧺ "[0; 32], [0; 32], [0; 32], [0; 32], [0; 32], [0; 32]]";
    set_size = 2;
    valid_value =
        "[0x4C, 0x46, 0x50, 0x00, 0, 0, 0, 0, 0, 0, 0, 0, 0, 0, 0, 0, 0, 0, 0, 0, "
        ⧺ "0, 0, 0, 0, 0, 0, 0, 0, 0, 0, 0, 0]";
    invalid_value =
        "[0x4C, 0x43, 0x4F, 0x00, 0, 0, 0, 0, 0, 0, 0, 0, 0, 0, 0, 0, 0, 0, 0, 0, "
        ⧺ "0, 0, 0, 0, 0, 0, 0, 0, 0, 0, 0, 0]";
    membership_test_desc = "is in allowed set";
  };
})

abbrev pub cobalt_origin_not_in_v1 : PredicateConfig
cobalt_origin_not_in_v1 = set_membership (record {
  base = record {
    name = "COBALT_ORIGIN_NOT_IN";
    version = "V1";
    description =
        "Proves cobalt origin is NOT from conflict regions (OECD Due Diligence compliance)";
    claim_type = "cobalt_origin_country";
    access_groups = legit_interest ∷ authority ∷ [];
    pricing = record { per_verification = 800; currency = eur };
  };
  membership_type = non_membership;
  set_description = "blocked conflict regions";
  set_element_description = "ISO 3166-1 alpha-3 country code hashes";
  max_set_size = 32;
  domain_separator = "[0x43, 0x4F, 0x42, 0x4C]";
  fail_message = "Cobalt origin is from blocked conflict region";
  test_vectors = record {
    set_elements =
        "[[0x43, 0x4F, 0x44, 0x00, 0, 0, 0, 0, 0, 0, 0, 0, 0, 0, 0, 0, 0, 0, 0, 0, "
        ⧺ "0, 0, 0, 0, 0, 0, 0, 0, 0, 0, 0, 0], [0; 32], [0; 32], [0; 32], [0; 32], "
        ⧺ "[0; 32], [0; 32], [0; 32], [0; 32], [0; 32], [0; 32], [0; 32], [0; 32], "
        ⧺ "[0; 32], [0; 32], [0; 32], [0; 32], [0; 32], [0; 32], [0; 32], [0; 32], "
        ⧺ "[0; 32], [0; 32], [0; 32], [0; 32], [0; 32], [0; 32], [0; 32], [0; 32], "
        ⧺ "[0; 32], [0; 32], [0; 32]]";
    set_size = 1;
    valid_value =
        "[0x41, 0x55, 0x53, 0x00, 0, 0, 0, 0, 0, 0, 0, 0, 0, 0, 0, 0, 0, 0, 0, 0, "
        ⧺ "0, 0, 0, 0, 0, 0, 0, 0, 0, 0, 0, 0]";
    invalid_value =
        "[0x43, 0x4F, 0x44, 0x00, 0, 0, 0, 0, 0, 0, 0, 0, 0, 0, 0, 0, 0, 0, 0, 0, "
        ⧺ "0, 0, 0, 0, 0, 0, 0, 0, 0, 0, 0, 0]";
    membership_test_desc = "is NOT in blocked set";
  };
})

abbrev pub due_diligence_valid_v1 : PredicateConfig
due_diligence_valid_v1 = timestamp (record {
  base = record {
    name = "DUE_DILIGENCE_VALID";
    version = "V1";
    description = "Proves supply chain due diligence certification is valid (not expired)";
    claim_type = "due_diligence_cert";
    access_groups = legit_interest ∷ authority ∷ [];
    pricing = record { per_verification = 300; currency = eur };
  };
  credential_type = "Due diligence certification";
})
