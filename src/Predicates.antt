-- ===== src/Predicates.antt =====
-- packages/predicate-lib/src/index.ts: predicate definitions, their registry, identifiers and
-- access groups. The registry (predicates.json) is an argument. Prices are in ten-thousandths of
-- the currency unit. A key that only JavaScript's object prototype has is not modelled.
pub mod Ids
pub mod Generator
mod Tests
use Prim.Native.Char.{Char, code}
use Prim.Native.String
use mathlib.Core.Option
use zk_dpp_royalty_protocol.Common.{
  ℕ, String, Bool, true, false, Option, none, some, List, [], ◌∷◌, eqb, filter, if◌then◌else◌,
}
use zk_dpp_royalty_protocol.Common.JsMap

pub data AccessGroup : Type 0 where
  public legit_interest authority : AccessGroup

pub data Comparison : Type 0 where
  gte lte eq range timestamp_before_expiry set_membership set_non_membership : Comparison
  lifecycle_aggregate : Comparison

pub data Currency : Type 0 where
  eur usd : Currency

pub record PredicatePricing : Type 0 where
  pub per_verification : ℕ
  pub currency : Currency

pub record PredicateDefinition : Type 0 where
  pub name : String
  pub version : String
  pub description : String
  pub circuit_path : String
  pub public_inputs : List String
  pub access_groups : List AccessGroup
  pub pricing : PredicatePricing
  pub claim_type : String
  pub comparison : Comparison

pub record PredicateId : Type 0 where
  pub name : String
  pub version : String

abbrev pub Registry : Type 0
Registry = List (String × PredicateDefinition)

-- The module variable `cachedRegistry` is the second argument and the second result.
pub get_registry : Registry → Option Registry → Registry × Option Registry
get_registry loaded none = (loaded, some loaded)
get_registry loaded (some cached) = (cached, some cached)

infixr 60 ◌⧺◌
abbrev pub ◌⧺◌ : String → String → String
◌⧺◌ = String.◌++◌

unfoldable pub canonical_id : PredicateId → String
canonical_id id = id.name ⧺ "_" ⧺ id.version

abbrev pub extend_split : Char → String → Option (String × String) → Option (String × String)
extend_split c s (some (before, after)) = some (String.◌∷◌ c before, after)
extend_split c s none = if eqb (code c) b'_' then some ("", s) else none

-- What stands before and after the last `_`, by `lastIndexOf` and `substring`.
unfoldable pub split_last : String → Option (String × String)
split_last String.[] = none
split_last (String.◌∷◌ c s) = extend_split c s (split_last s)

abbrev to_id : String × String → PredicateId
to_id (before, after) = record { name = before; version = after }

-- `none` is the thrown `Invalid predicate ID`.
unfoldable pub parse_id : String → Option PredicateId
parse_id canonical = Option.map to_id (split_last canonical)

-- `string | PredicateId`
pub data Key : Type 0 where
  text : String → Key
  ident : PredicateId → Key

abbrev key_text : Key → String
key_text (text s) = s
key_text (ident id) = canonical_id id

abbrev pub is_group : AccessGroup → AccessGroup → Bool
is_group public public = true
is_group legit_interest legit_interest = true
is_group authority authority = true
is_group _ _ = false

-- `accessGroups.includes(group)`
abbrev pub includes_group : List AccessGroup → AccessGroup → Bool
includes_group [] g = false
includes_group (a ∷ as') g = if is_group a g then true else includes_group as' g

module _ (registry : Registry) where
  unfoldable pub get_predicate : Key → Option PredicateDefinition
  get_predicate k = JsMap.get (key_text k) registry

  pub list_predicates : List PredicateDefinition
  list_predicates = JsMap.values registry

  pub list_predicates_for_access_group : AccessGroup → List PredicateDefinition
  unfolding list_predicates
  list_predicates_for_access_group group =
      filter (λ p. includes_group p.access_groups group) list_predicates

  pub get_circuit_path : Key → Option String
  get_circuit_path k = Option.map (λ p. p.circuit_path) (get_predicate k)

  pub can_access_predicate : Key → AccessGroup → Bool
  can_access_predicate k group = elim (get_predicate k) [
    | none ↦ false
    | some p ↦ includes_group p.access_groups group
  ]

  pub get_verification_price : Key → Option PredicatePricing
  get_verification_price k = Option.map (λ p. p.pricing) (get_predicate k)
