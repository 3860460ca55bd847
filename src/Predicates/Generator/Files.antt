-- ===== src/Predicates/Generator/Files.antt =====
-- packages/predicate-lib/src/generator.ts: the files that the generator writes. The two files of a
-- circuit are kept under the name of its directory (names are assumed to hold no path), and
-- `toLowerCase` is an argument.
use zk_dpp_royalty_protocol.Common.{ℕ, String, List, [], ◌∷◌}
use zk_dpp_royalty_protocol.Common.JsMap
use zk_dpp_royalty_protocol.Common.Results.{Result, ok, err}
use zk_dpp_royalty_protocol.Common.Exec.{Exec, ◌>>=◌, ◌>>◌, pure, lift}
use zk_dpp_royalty_protocol.Predicates
use zk_dpp_royalty_protocol.Predicates.{◌⧺◌, PredicateDefinition, Comparison, Registry}
use zk_dpp_royalty_protocol.Predicates.Generator.Types.{
  RangeComparison, MembershipType, gte, lte, membership, non_membership, PredicateConfig, base_of,
  range, set_membership, timestamp, dual_range, lifecycle,
}
use zk_dpp_royalty_protocol.Predicates.Generator.Texts.{
  Templates, generate_main_nr, generate_nargo_toml,
}

pub record Circuit : Type 0 where
  pub main_nr : String
  pub nargo_toml : String

-- predicates.json: not there, no JSON (with the error of `JSON.parse`), or a registry.
pub data RegistryFile : Type 0 where
  missing : RegistryFile
  malformed : (error : String) → RegistryFile
  holds : Registry → RegistryFile

pub record World : Type 0 where
  pub circuits : List (String × Circuit)
  pub registry : RegistryFile

abbrev range_comparison : RangeComparison → Comparison
range_comparison gte = Predicates.gte
range_comparison lte = Predicates.lte

abbrev set_comparison : MembershipType → Comparison
set_comparison membership = Predicates.set_membership
set_comparison non_membership = Predicates.set_non_membership

abbrev pub comparison_of : PredicateConfig → Comparison
comparison_of (range c) = range_comparison c.comparison
comparison_of (set_membership c) = set_comparison c.membership_type
comparison_of (timestamp c) = Predicates.timestamp_before_expiry
comparison_of (dual_range c) = Predicates.range
comparison_of (lifecycle c) = Predicates.lifecycle_aggregate

abbrev pub public_inputs_of : PredicateConfig → List String
public_inputs_of (range c) =
    "threshold" ∷ "commitment_root" ∷ "product_binding" ∷ "requester_binding" ∷ []
public_inputs_of (set_membership c) =
    "set_hash" ∷ "commitment_root" ∷ "product_binding" ∷ "requester_binding" ∷ []
public_inputs_of (timestamp c) =
    "current_timestamp" ∷ "commitment_root" ∷ "product_binding" ∷ "requester_binding" ∷ []
public_inputs_of (dual_range c) =
    "min_threshold" ∷ "max_threshold" ∷ "commitment_root" ∷ "product_binding" ∷ "requester_binding"
    ∷ []
public_inputs_of (lifecycle c) =
    "threshold" ∷ "commitment_root" ∷ "product_binding" ∷ "requester_binding" ∷ []

unfoldable pub id_of : PredicateConfig → String
id_of config = (base_of config).name ⧺ "_" ⧺ (base_of config).version

abbrev pub read_registry : RegistryFile → Result Registry
read_registry missing = ok []
read_registry (malformed error) = err error
read_registry (holds registry) = ok registry

module _ (lower : String → String) where
  unfoldable pub circuit_of : PredicateConfig → String
  circuit_of config = lower (base_of config).name ⧺ "_" ⧺ lower (base_of config).version

  unfoldable pub definition_of : PredicateConfig → PredicateDefinition
  definition_of config = record {
    name = (base_of config).name;
    version = (base_of config).version;
    description = (base_of config).description;
    circuit_path = circuit_of config;
    public_inputs = public_inputs_of config;
    access_groups = (base_of config).access_groups;
    pricing = (base_of config).pricing;
    claim_type = (base_of config).claim_type;
    comparison = comparison_of config;
  }

  unfoldable pub write_circuit_files :
      (circuit_name main_nr nargo_toml : String) → Exec World (Unit {0})
  write_circuit_files circuit_name main_nr nargo_toml w = (
    ok tt,
    record w {
      circuits =
          JsMap.set circuit_name (record { main_nr = main_nr; nargo_toml = nargo_toml }) w.circuits;
    },
  )

  -- What follows the read of the registry.
  abbrev pub written : PredicateConfig → Result Registry → Exec World (Unit {0})
  written config (err e) = λ w. (err e, w)
  written config (ok registry) = λ w. (
    ok tt,
    record w { registry = holds (JsMap.set (id_of config) (definition_of config) registry) },
  )

  unfoldable pub update_registry : PredicateConfig → Exec World (Unit {0})
  update_registry config w = written config (read_registry w.registry) w

  module _ (show : ℕ → String) (templates_dir : String) (templates : Templates) where
    unfoldable pub generate_predicate : PredicateConfig → Exec World (Unit {0})
    generate_predicate config = do
      main_nr ← lift (generate_main_nr show templates_dir templates config)
      nargo_toml ← lift (generate_nargo_toml show templates_dir templates (circuit_of config))
      write_circuit_files (circuit_of config) main_nr nargo_toml
      update_registry config

    unfoldable pub generate_predicates : List PredicateConfig → Exec World (Unit {0})
    generate_predicates [] = pure tt
    generate_predicates (config ∷ configs) = do
      generate_predicate config
      generate_predicates configs
