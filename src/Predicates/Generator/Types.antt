-- ===== src/Predicates/Generator/Types.antt =====
-- packages/predicate-lib/src/generator.ts: the configurations. Numbers of test vectors are natural.
use zk_dpp_royalty_protocol.Common.{ℕ, String, List}
use zk_dpp_royalty_protocol.Predicates.{AccessGroup, PredicatePricing}

pub record BasePredicateConfig : Type 0 where
  pub name : String
  pub version : String
  pub description : String
  pub claim_type : String
  pub access_groups : List AccessGroup
  pub pricing : PredicatePricing

pub data RangeComparison : Type 0 where
  gte lte : RangeComparison

pub data ValueType : Type 0 where
  u32 u64 : ValueType

pub data MembershipType : Type 0 where
  membership non_membership : MembershipType

pub record RangeVectors : Type 0 where
  pub valid_value : ℕ
  pub valid_threshold : ℕ
  pub invalid_value : ℕ
  pub invalid_threshold : ℕ
  pub exact_value : ℕ

pub record RangePredicateConfig : Type 0 where
  pub base : BasePredicateConfig
  pub comparison : RangeComparison
  pub unit : String
  pub value_type : ValueType
  pub threshold_description : String
  pub range_validation : String
  pub fail_message : String
  pub test_vectors : RangeVectors

pub record SetVectors : Type 0 where
  pub set_elements : String
  pub set_size : ℕ
  pub valid_value : String
  pub invalid_value : String
  pub membership_test_desc : String

pub record SetMembershipConfig : Type 0 where
  pub base : BasePredicateConfig
  pub membership_type : MembershipType
  pub set_description : String
  pub set_element_description : String
  pub max_set_size : ℕ
  pub domain_separator : String
  pub fail_message : String
  pub test_vectors : SetVectors

pub record TimestampPredicateConfig : Type 0 where
  pub base : BasePredicateConfig
  pub credential_type : String

pub record DualVectors : Type 0 where
  pub min_threshold : ℕ
  pub max_threshold : ℕ
  pub valid_value : ℕ
  pub below_min_value : ℕ
  pub above_max_value : ℕ

pub record DualRangeConfig : Type 0 where
  pub base : BasePredicateConfig
  pub unit : String
  pub value_type : ValueType
  pub range_validation : String
  pub test_vectors : DualVectors

pub record LifecycleVectors : Type 0 where
  pub threshold : ℕ
  pub valid_stages : String
  pub invalid_stages : String
  pub claim_type_hashes : String
  pub unit_hashes : String

pub record LifecycleConfig : Type 0 where
  pub base : BasePredicateConfig
  pub metric : String
  pub unit : String
  pub num_stages : ℕ
  pub stage_names : String
  pub stage_validation : String
  pub test_vectors : LifecycleVectors

pub data PredicateConfig : Type 0 where
  range : RangePredicateConfig → PredicateConfig
  set_membership : SetMembershipConfig → PredicateConfig
  timestamp : TimestampPredicateConfig → PredicateConfig
  dual_range : DualRangeConfig → PredicateConfig
  lifecycle : LifecycleConfig → PredicateConfig

abbrev pub base_of : PredicateConfig → BasePredicateConfig
base_of (range c) = c.base
base_of (set_membership c) = c.base
base_of (timestamp c) = c.base
base_of (dual_range c) = c.base
base_of (lifecycle c) = c.base
