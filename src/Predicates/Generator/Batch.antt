-- ===== src/Predicates/Generator/Batch.antt =====
-- What a batch of packages/predicate-lib/src/generator.ts leaves in the registry and on the disk.
use zk_dpp_royalty_protocol.Common.{
  ℕ, String, Bool, true, false, ◌≡◌, refl, sym, subst, ◌∙◌, ap, Option, none, some, List, [], ◌∷◌,
  ◌==◌, inl, inr, eq_refl, Bool-cases, if◌then◌else◌,
}
use zk_dpp_royalty_protocol.Common.JsMap
use zk_dpp_royalty_protocol.Common.JsMap.{get-set, set-IsMap}
use zk_dpp_royalty_protocol.Common.Results.{Result, ok, err, Result-cases}
use zk_dpp_royalty_protocol.Common.Exec.{after}
use zk_dpp_royalty_protocol.Predicates.{PredicateDefinition, Registry}
use zk_dpp_royalty_protocol.Predicates.Generator.Types.{PredicateConfig}
use zk_dpp_royalty_protocol.Predicates.Generator.Texts.{
  Templates, generate_main_nr, generate_nargo_toml,
}
use zk_dpp_royalty_protocol.Predicates.Generator.Files.{
  Circuit, World, holds, read_registry, id_of, circuit_of, definition_of, write_circuit_files,
  update_registry, generate_predicate, generate_predicates,
}

module _ (lower : String → String) (show : ℕ → String) (templates_dir : String)
    (templates : Templates) where
  abbrev main_of : PredicateConfig → Result String
  main_of config = generate_main_nr show templates_dir templates config

  abbrev toml_of : PredicateConfig → Result String
  toml_of config = generate_nargo_toml show templates_dir templates (circuit_of lower config)

  abbrev with_circuit : PredicateConfig → (main toml : String) → World → World
  with_circuit config main toml w = record w {
    circuits =
        JsMap.set (circuit_of lower config) (record { main_nr = main; nargo_toml = toml })
          w.circuits;
  }

  abbrev with_entry : PredicateConfig → Registry → World → World
  with_entry config registry w = record w {
    registry = holds (JsMap.set (id_of config) (definition_of lower config) registry);
  }

  module _ {ℓ} (P : Result (Unit {0}) × World → Type ℓ) (config : PredicateConfig) (w : World) where
    generate_predicate-cases :
        ((e : String) → P (err e, w))
        → ((main toml e : String) → P (err e, with_circuit config main toml w))
        → ((main toml : String) (registry : Registry)
            → main_of config ≡ ok main
            → toml_of config ≡ ok toml
            → read_registry w.registry ≡ ok registry
            → P (ok tt, with_entry config registry (with_circuit config main toml w)))
        → P (generate_predicate lower show templates_dir templates config w)
    unfolding generate_predicate write_circuit_files update_registry
    generate_predicate-cases untouched half whole = elim (Result-cases (main_of config)) [
      | inl (e, h) ↦ rw (h, generate_predicate) (untouched e)
      | inr (main, h) ↦ elim (Result-cases (toml_of config)) [
        | inl (e, k) ↦ rw (h, k, generate_predicate) (untouched e)
        | inr (toml, k) ↦ elim (Result-cases (read_registry w.registry)) [
          | inl (e, l) ↦
              rw (h, k, l, generate_predicate, write_circuit_files, update_registry)
                (half main toml e)
          | inr (registry, l) ↦
              rw (h, k, l, generate_predicate, write_circuit_files, update_registry)
                (whole main toml registry h k l)
        ]
      ]
    ]

  -- The definition that a batch leaves at an identifier: that of its last configuration with the
  -- identifier, else the old one.
  abbrev pub newest :
      String → List PredicateConfig → Option PredicateDefinition → Option PredicateDefinition
  newest id [] old = old
  newest id (config ∷ configs) old =
      newest id configs (if id_of config == id then some (definition_of lower config) else old)

  abbrev pub to_circuit : Result String → Result String → Option Circuit
  to_circuit (ok main) (ok toml) = some (record { main_nr = main; nargo_toml = toml })
  to_circuit _ _ = none

  -- The same for the circuit in a directory.
  abbrev pub newest_circuit : String → List PredicateConfig → Option Circuit → Option Circuit
  newest_circuit name [] old = old
  newest_circuit name (config ∷ configs) old = newest_circuit name configs (
      if circuit_of lower config == name then to_circuit (main_of config) (toml_of config) else old)

  -- The world after a batch that went through, against the world and the registry before it.
  abbrev pub IsGenerated : List PredicateConfig → World → Registry → World → Type 0
  IsGenerated configs w registry w' =
      (registry' : Registry) × (read_registry w'.registry ≡ ok registry')
      × ((id : String) → JsMap.get id registry' ≡ newest id configs (JsMap.get id registry))
      × ((name : String)
          → JsMap.get name w'.circuits ≡ newest_circuit name configs (JsMap.get name w.circuits))

  -- A batch that goes through leaves in the registry, at every identifier, the definition of its
  -- last configuration with that identifier and otherwise the old one; and in every circuit
  -- directory the files of its last configuration with that directory and otherwise the old ones.
  -- The registry file was missing or readable.
  pub generate_predicates-IsGenerated :
      (configs : List PredicateConfig) (w w' : World) (registry : Registry)
      → read_registry w.registry ≡ ok registry
      → generate_predicates lower show templates_dir templates configs w ≡ (ok tt, w')
      → IsGenerated configs w registry w'
  unfolding generate_predicates
  generate_predicates-IsGenerated [] w w' registry read h =
      subst (λ u. IsGenerated [] w registry u) (ap (λ x. x.1) h)
        (registry, read, λ id. refl, λ name. refl)
  generate_predicates-IsGenerated (config ∷ configs) w w' registry read h =
      generate_predicate-cases
        (λ x.
          after (λ u. generate_predicates lower show templates_dir templates configs) x
            ≡ (ok tt, w')
          → IsGenerated (config ∷ configs) w registry w')
        config w (λ e g. absurd (cc g)) (λ main toml e g. absurd (cc g))
        (λ main toml registry' m t r g.
          let (registry'', read'', entries, circuits) =
            generate_predicates-IsGenerated configs
              (with_entry config registry' (with_circuit config main toml w)) w'
              (JsMap.set (id_of config) (definition_of lower config) registry') refl g in
          let same : registry' ≡ registry = cc (r, read) in
          (
            registry'',
            read'',
            λ id.
                entries id
                ∙ ap (newest id configs)
                    (get-set (id_of config) id (definition_of lower config) registry')
                ∙ rw same refl,
            λ name.
                circuits name
                ∙ ap (newest_circuit name configs) (
                    get-set (circuit_of lower config) name
                      (record { main_nr = main; nargo_toml = toml }) w.circuits)
                ∙ rw (m, t) refl,
          ))
        h

  -- Every registered predicate has its circuit on the disk.
  pub record IsComplete (w : World) : Type 0 where
    pub has_circuit :
        (registry : Registry) (id : String) (definition : PredicateDefinition)
        → read_registry w.registry ≡ ok registry
        → JsMap.get id registry ≡ some definition
        → JsMap.has definition.circuit_path w.circuits ≡ true

  has-with_circuit :
      (config : PredicateConfig) (main toml name : String) (w : World)
      → JsMap.has name w.circuits ≡ true
      → JsMap.has name (with_circuit config main toml w).circuits ≡ true
  has-with_circuit config main toml name w h =
      rw
        (get-set (circuit_of lower config) name (record { main_nr = main; nargo_toml = toml })
          w.circuits)
        (elim (Bool-cases (circuit_of lower config == name)) [ inl e ↦ rw e refl | inr e ↦ rw e h ])

  has_own-with_circuit :
      (config : PredicateConfig) (main toml : String) (w : World)
      → JsMap.has (circuit_of lower config) (with_circuit config main toml w).circuits ≡ true
  has_own-with_circuit config main toml w =
      rw
        (
          get-set (circuit_of lower config) (circuit_of lower config)
              (record { main_nr = main; nargo_toml = toml }) w.circuits,
          eq_refl (circuit_of lower config),
        )
        refl

  with_circuit-IsComplete :
      (config : PredicateConfig) (main toml : String) (w : World)
      → IsComplete w
      → IsComplete (with_circuit config main toml w)
  with_circuit-IsComplete config main toml w complete = record {
    has_circuit = λ registry id definition read found.
        has-with_circuit config main toml definition.circuit_path w
          (complete.has_circuit registry id definition read found);
  }

  with_entry-IsComplete :
      (config : PredicateConfig) (main toml : String) (registry : Registry) (w : World)
      → read_registry w.registry ≡ ok registry
      → IsComplete w
      → IsComplete (with_entry config registry (with_circuit config main toml w))
  unfolding definition_of
  with_entry-IsComplete config main toml registry w read complete = record {
    has_circuit = λ registry' id definition read' found.
        let entry =
          sym (get-set (id_of config) id (definition_of lower config) registry)
          ∙ subst (λ r. JsMap.get id r ≡ some definition) (sym (cc read')) found in
        elim (Bool-cases (id_of config == id)) [
          | inl e ↦
              let is : definition_of lower config ≡ definition = cc (at_id _ _ _ true e entry) in
              subst
                (λ d. JsMap.has d.circuit_path (with_circuit config main toml w).circuits ≡ true) is
                (has_own-with_circuit config main toml w)
          | inr e ↦
              has-with_circuit config main toml definition.circuit_path w
                (complete.has_circuit registry id definition read (at_id _ _ _ false e entry))
        ];
  }
    where
      at_id :
          (old : Option PredicateDefinition) (id : String) (definition : PredicateDefinition)
          (b : Bool)
          → (id_of config == id) ≡ b
          → (if id_of config == id then some (definition_of lower config) else old)
            ≡ some definition
          → (if b then some (definition_of lower config) else old) ≡ some definition
      at_id old id definition b e h = rw⁻¹ e h

  -- A batch keeps every registered predicate's circuit on the disk, also where it throws half-way:
  -- the files of a circuit are written before its entry.
  pub generate_predicates-IsComplete :
      (configs : List PredicateConfig) (w : World)
      → IsComplete w
      → IsComplete (generate_predicates lower show templates_dir templates configs w).1
  unfolding generate_predicates
  generate_predicates-IsComplete [] w complete = complete
  generate_predicates-IsComplete (config ∷ configs) w complete =
      generate_predicate-cases
        (λ x.
          IsComplete
            (after (λ u. generate_predicates lower show templates_dir templates configs) x).1)
        config w (λ e. complete)
        (λ main toml e. with_circuit-IsComplete config main toml w complete)
        (λ main toml registry m t r.
          generate_predicates-IsComplete configs
            (with_entry config registry (with_circuit config main toml w))
            (with_entry-IsComplete config main toml registry w r complete))
