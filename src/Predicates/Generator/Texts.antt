-- ===== src/Predicates/Generator/Texts.antt =====
-- packages/predicate-lib/src/generator.ts: the text of a circuit. The text of a number
-- (`toString`) is an argument, and so are the templates, by file name.

use zk_dpp_royalty_protocol.Common.{ℕ, String, Option, none, some, List, [], ◌∷◌}
use zk_dpp_royalty_protocol.Common.JsMap
use zk_dpp_royalty_protocol.Common.Results.{Result, ok, err}
use zk_dpp_royalty_protocol.Predicates.{◌⧺◌}
use zk_dpp_royalty_protocol.Predicates.Generator.Substitution.{apply_substitutions}
use zk_dpp_royalty_protocol.Predicates.Generator.Types.{
  RangeComparison, gte, lte, ValueType, u32, u64, MembershipType, membership, non_membership,
  RangePredicateConfig, SetMembershipConfig, TimestampPredicateConfig, DualRangeConfig,
  LifecycleConfig, PredicateConfig, range, set_membership, timestamp, dual_range, lifecycle,
}

abbrev value_type_text : ValueType → String
value_type_text u32 = "u32"
value_type_text u64 = "u64"

abbrev membership_text : MembershipType → String
membership_text membership = "membership"
membership_text non_membership = "non_membership"

abbrev generate_range_assertion : RangeComparison → (fail_message : String) → String
generate_range_assertion gte fail_message =
    "assert(actual_value >= threshold, \"" ⧺ fail_message ⧺ "\");"
generate_range_assertion lte fail_message =
    "assert(actual_value <= threshold, \"" ⧺ fail_message ⧺ "\");"

abbrev generate_predicate_assertion : RangeComparison → String
generate_predicate_assertion gte = "actual_value >= threshold"
generate_predicate_assertion lte = "actual_value <= threshold"

-- The loop that both checks start with.
abbrev search_loop : String
search_loop =
    "    let mut found = false;\n    for i in 0..MAX_SET_SIZE {\n"
    ⧺ "        if (i as u32) < set_size {\n"
    ⧺ "            if bytes_equal(actual_value, set_elements[i]) {\n"
    ⧺ "                found = true;\n            }\n        }\n    }\n"

abbrev generate_membership_check : MembershipType → (fail_message : String) → String
generate_membership_check membership fail_message =
    search_loop ⧺ "    assert(found, \"" ⧺ fail_message ⧺ "\");"
generate_membership_check non_membership fail_message =
    search_loop ⧺ "    assert(!found, \"" ⧺ fail_message ⧺ "\");"

-- The directory of templates: the text of each file by its name.
abbrev pub Templates : Type 0
Templates = List (String × String)

module _ (show : ℕ → String) (templates_dir : String) (templates : Templates) where
  abbrev found_or_missing : String → Option String → Result String
  found_or_missing name none = err ("Template not found: " ⧺ templates_dir ⧺ "/" ⧺ name)
  found_or_missing name (some text) = ok text

  unfoldable pub read_template : (name : String) → Result String
  read_template name = found_or_missing name (JsMap.get name templates)

  abbrev filled : List (String × String) → Result String → Result String
  filled substitutions (err e) = err e
  filled substitutions (ok template) = ok (apply_substitutions template substitutions)

  unfoldable pub generate_range_predicate : RangePredicateConfig → Result String
  generate_range_predicate c =
      filled
        (("PREDICATE_NAME", c.base.name)
          ∷ ("VERSION", c.base.version)
          ∷ ("DESCRIPTION", c.base.description)
          ∷ ("THRESHOLD_DESCRIPTION", c.threshold_description)
          ∷ ("CLAIM_TYPE", c.base.claim_type)
          ∷ ("UNIT", c.unit)
          ∷ ("VALUE_TYPE", value_type_text c.value_type)
          ∷ ("PREDICATE_ASSERTION", generate_predicate_assertion c.comparison)
          ∷ ("ASSERTION_CODE", generate_range_assertion c.comparison c.fail_message)
          ∷ ("RANGE_VALIDATION", c.range_validation)
          ∷ ("FAIL_MESSAGE", c.fail_message)
          ∷ ("TEST_VALID_VALUE", show c.test_vectors.valid_value)
          ∷ ("TEST_VALID_THRESHOLD", show c.test_vectors.valid_threshold)
          ∷ ("TEST_INVALID_VALUE", show c.test_vectors.invalid_value)
          ∷ ("TEST_INVALID_THRESHOLD", show c.test_vectors.invalid_threshold)
          ∷ ("TEST_EXACT_VALUE", show c.test_vectors.exact_value)
          ∷ [])
        (read_template "range_predicate.nr.tmpl")

  unfoldable pub generate_set_membership_predicate : SetMembershipConfig → Result String
  generate_set_membership_predicate c =
      filled
        (("PREDICATE_NAME", c.base.name)
          ∷ ("VERSION", c.base.version)
          ∷ ("DESCRIPTION", c.base.description)
          ∷ ("SET_DESCRIPTION", c.set_description)
          ∷ ("SET_ELEMENT_DESCRIPTION", c.set_element_description)
          ∷ ("CLAIM_TYPE", c.base.claim_type)
          ∷ ("MAX_SET_SIZE", show c.max_set_size)
          ∷ ("DOMAIN_SEPARATOR", c.domain_separator)
          ∷ ("MEMBERSHIP_TYPE", membership_text c.membership_type)
          ∷ ("MEMBERSHIP_CHECK_CODE", generate_membership_check c.membership_type c.fail_message)
          ∷ ("FAIL_MESSAGE", c.fail_message)
          ∷ ("TEST_SET_ELEMENTS", c.test_vectors.set_elements)
          ∷ ("TEST_SET_SIZE", show c.test_vectors.set_size)
          ∷ ("TEST_VALID_VALUE", c.test_vectors.valid_value)
          ∷ ("TEST_INVALID_VALUE", c.test_vectors.invalid_value)
          ∷ ("MEMBERSHIP_TEST_DESCRIPTION", c.test_vectors.membership_test_desc)
          ∷ [])
        (read_template "set_membership.nr.tmpl")

  unfoldable pub generate_timestamp_predicate : TimestampPredicateConfig → Result String
  generate_timestamp_predicate c =
      filled
        (("PREDICATE_NAME", c.base.name)
          ∷ ("VERSION", c.base.version)
          ∷ ("DESCRIPTION", c.base.description)
          ∷ ("CLAIM_TYPE", c.base.claim_type)
          ∷ ("CREDENTIAL_TYPE", c.credential_type)
          ∷ [])
        (read_template "timestamp_validity.nr.tmpl")

  unfoldable pub generate_dual_range_predicate : DualRangeConfig → Result String
  generate_dual_range_predicate c =
      filled
        (("PREDICATE_NAME", c.base.name)
          ∷ ("VERSION", c.base.version)
          ∷ ("DESCRIPTION", c.base.description)
          ∷ ("CLAIM_TYPE", c.base.claim_type)
          ∷ ("UNIT", c.unit)
          ∷ ("VALUE_TYPE", value_type_text c.value_type)
          ∷ ("RANGE_VALIDATION", c.range_validation)
          ∷ ("TEST_MIN_THRESHOLD", show c.test_vectors.min_threshold)
          ∷ ("TEST_MAX_THRESHOLD", show c.test_vectors.max_threshold)
          ∷ ("TEST_VALID_VALUE", show c.test_vectors.valid_value)
          ∷ ("TEST_BELOW_MIN", show c.test_vectors.below_min_value)
          ∷ ("TEST_ABOVE_MAX", show c.test_vectors.above_max_value)
          ∷ [])
        (read_template "dual_range.nr.tmpl")

  unfoldable pub generate_lifecycle_predicate : LifecycleConfig → Result String
  generate_lifecycle_predicate c =
      filled
        (("PREDICATE_NAME", c.base.name)
          ∷ ("VERSION", c.base.version)
          ∷ ("DESCRIPTION", c.base.description)
          ∷ ("METRIC", c.metric)
          ∷ ("UNIT", c.unit)
          ∷ ("NUM_STAGES", show c.num_stages)
          ∷ ("STAGE_NAMES", c.stage_names)
          ∷ ("STAGE_VALIDATION", c.stage_validation)
          ∷ ("TEST_THRESHOLD", show c.test_vectors.threshold)
          ∷ ("TEST_VALID_STAGES", c.test_vectors.valid_stages)
          ∷ ("TEST_INVALID_STAGES", c.test_vectors.invalid_stages)
          ∷ ("TEST_CLAIM_TYPE_HASHES", c.test_vectors.claim_type_hashes)
          ∷ ("TEST_UNIT_HASHES", c.test_vectors.unit_hashes)
          ∷ [])
        (read_template "lifecycle_aggregation.nr.tmpl")

  -- The `switch` of `generatePredicate`.
  abbrev pub generate_main_nr : PredicateConfig → Result String
  generate_main_nr (range c) = generate_range_predicate c
  generate_main_nr (set_membership c) = generate_set_membership_predicate c
  generate_main_nr (timestamp c) = generate_timestamp_predicate c
  generate_main_nr (dual_range c) = generate_dual_range_predicate c
  generate_main_nr (lifecycle c) = generate_lifecycle_predicate c

  unfoldable pub generate_nargo_toml : (circuit_name : String) → Result String
  generate_nargo_toml circuit_name =
      filled (("CIRCUIT_NAME", circuit_name) ∷ []) (read_template "Nargo.toml.tmpl")
