-- ===== src/Predicates/Generator/Tests.antt =====
-- Batches on small templates, and the theorems applied to them.
use zk_dpp_royalty_protocol.Common.{ℕ, String, ◌≡◌, refl, subst, ◌==◌, if◌then◌else◌, some, [], ◌∷◌}
use zk_dpp_royalty_protocol.Common.JsMap
use zk_dpp_royalty_protocol.Predicates.{public, eur}
use zk_dpp_royalty_protocol.Predicates.Generator.Types.{PredicateConfig, timestamp}
use zk_dpp_royalty_protocol.Predicates.Generator.Substitution.{apply_substitutions}
use zk_dpp_royalty_protocol.Predicates.Generator.Texts.{
  Templates, generate_nargo_toml, generate_timestamp_predicate, read_template,
}
use zk_dpp_royalty_protocol.Predicates.Generator.Files.{
  World, missing, id_of, circuit_of, definition_of, write_circuit_files, update_registry,
  generate_predicate, generate_predicates,
}
use zk_dpp_royalty_protocol.Predicates.Generator.Batch.{
  IsGenerated, IsComplete, generate_predicates-IsGenerated, generate_predicates-IsComplete,
}

substituted :
    apply_substitutions "{{NAME}} of {{UNIT}}: {{NAME}}"
      (("NAME", "mass") ∷ ("UNIT", "a$$b$&c") ∷ [])
    ≡ "mass of a$b{{UNIT}}c: mass"
substituted = refl

-- A value that holds a placeholder of a later key is filled in once more.
substituted_again :
    apply_substitutions "{{NAME}}" (("NAME", "{{UNIT}}") ∷ ("UNIT", "kg") ∷ []) ≡ "kg"
substituted_again = refl

abbrev lower : String → String
lower s = if s == "CERT" then "cert" else if s == "V1" then "v1" else s

abbrev show : ℕ → String
show n = "0"

abbrev templates : Templates
templates =
    ("timestamp_validity.nr.tmpl", "// {{PREDICATE_NAME}}_{{VERSION}}")
    ∷ ("Nargo.toml.tmpl", "name = {{CIRCUIT_NAME}}")
    ∷ []

abbrev cert : PredicateConfig
cert = timestamp (record {
  base = record {
    name = "CERT";
    version = "V1";
    description = "";
    claim_type = "cert";
    access_groups = public ∷ [];
    pricing = record { per_verification = 500; currency = eur };
  };
  credential_type = "iso";
})

abbrev empty : World
empty = record { circuits = []; registry = missing }

abbrev generated : World
generated = (generate_predicates lower show "t" templates (cert ∷ cert ∷ []) empty).1

circuit_text :
    JsMap.get "cert_v1" generated.circuits
    ≡ some (record { main_nr = "// CERT_V1"; nargo_toml = "name = cert_v1" })
unfolding generate_predicates generate_predicate generate_timestamp_predicate generate_nargo_toml
    read_template write_circuit_files update_registry id_of circuit_of definition_of JsMap.get
    JsMap.set
circuit_text = refl

generate_predicates-IsGenerated_example :
    IsGenerated lower show "t" templates (cert ∷ cert ∷ []) empty [] generated
unfolding generate_predicates generate_predicate generate_timestamp_predicate generate_nargo_toml
    read_template write_circuit_files update_registry id_of circuit_of definition_of JsMap.get
    JsMap.set
generate_predicates-IsGenerated_example =
    generate_predicates-IsGenerated lower show "t" templates (cert ∷ cert ∷ []) empty generated []
      refl refl

empty-IsComplete : IsComplete lower show "t" templates empty
unfolding JsMap.get
empty-IsComplete = record {
  has_circuit = λ registry id definition read found.
      let is_empty : registry ≡ [] = cc read in
      absurd (cc (subst (λ r. JsMap.get id r ≡ some definition) is_empty found));
}

generate_predicates-IsComplete_example : IsComplete lower show "t" templates generated
generate_predicates-IsComplete_example =
    generate_predicates-IsComplete lower show "t" templates (cert ∷ cert ∷ []) empty
      empty-IsComplete
