-- ===== src/Gateway/NoirCli/Race.antt =====
-- What `nargo verify` is run on, alone and with another request in between.
use zk_dpp_royalty_protocol.Common.{
  ℕ, String, ◌≡◌, refl, sym, ap, ◌∙◌, inl, inr, Option, none, some, true, List, ◌∷◌, ◌++◌, length,
  eqb, arith, eq_refl, Bool-cases,
}
use zk_dpp_royalty_protocol.Common.JsMap
use zk_dpp_royalty_protocol.Common.Results.{Result, ok, err, ◌>>=◌, Result-cases}
use zk_dpp_royalty_protocol.Predicates.{PredicateDefinition, ◌⧺◌}
use zk_dpp_royalty_protocol.Gateway.Types.{PublicInputs, ProofPackage, ProofResult}
use zk_dpp_royalty_protocol.Gateway.NoirCli.{
  Host, Disk, comma_list, strip_hex_prefix, bytes_to_toml_array, unlines, threshold_lines,
  stamp_lines, forbidden_hash, forbidden_lines, ready, build_verifier_toml, prepare, finish,
  verify_with_noir_cli, answer,
}

-- What nargo says of a package's own proof and input file.
abbrev pub verdict : Host → String → ProofPackage → Result String → ProofResult
verdict host dir pkg (err e) = answer (some e)
verdict host dir pkg (ok toml) =
    answer (host.nargo_verify dir (some (host.hex_bytes pkg.proof)) (some toml))

abbrev pub bytes_of : Host → String → List ℕ
bytes_of host value = host.hex_bytes (strip_hex_prefix value)

abbrev pub bytes_text : Host → String → String
bytes_text host value = "[" ⧺ comma_list host (bytes_of host value) ⧺ "]"

-- The input file of a package: the threshold and the time, if there are any, then each of the three
-- public inputs under its name, as its 32 bytes, and the forbidden list's hash, if there is one.
pub record IsInput (host : Host) (predicate : PredicateDefinition) (pkg : ProofPackage)
    (toml : String) : Type 0 where
  pub stamps : List String
  pub forbidden : List String
  pub stamps_are : stamp_lines host predicate pkg ≡ ok stamps
  pub forbidden_are : forbidden_lines host (forbidden_hash pkg.public_inputs.extra) ≡ ok forbidden
  pub root_length : length (bytes_of host pkg.public_inputs.commitment_root) ≡ 32
  pub product_length : length (bytes_of host pkg.public_inputs.product_binding) ≡ 32
  pub requester_length : length (bytes_of host pkg.public_inputs.requester_binding) ≡ 32
  pub text_is :
      toml
      ≡ unlines (
          threshold_lines host pkg.public_inputs.threshold
          ++ (stamps
              ++ (("commitment_root = " ⧺ bytes_text host pkg.public_inputs.commitment_root)
                  ∷ ("product_binding = " ⧺ bytes_text host pkg.public_inputs.product_binding)
                  ∷ ("requester_binding = " ⧺ bytes_text host pkg.public_inputs.requester_binding)
                  ∷ forbidden)))

value_is : (t toml : String) → ◌≡◌ {A = Result String} (ok t) (ok toml) → t ≡ toml
value_is t toml h = cc h

bind-ok {ℓ κ} :
    {A : Type ℓ} {B : Type κ} (r : Result A) (k : A → Result B) (b : B)
    → (r >>= k) ≡ ok b
    → (a : A) × (r ≡ ok a) × (k a ≡ ok b)
bind-ok (err e) k b h = absurd (cc h)
bind-ok (ok a) k b h = (a, refl, h)

module _ (host : Host) where
  bytes_to_toml_array-ok :
      (value t : String)
      → bytes_to_toml_array host value ≡ ok t
      → (length (bytes_of host value) ≡ 32) × (bytes_text host value ≡ t)
  unfolding bytes_to_toml_array
  bytes_to_toml_array-ok value t h = elim (Bool-cases (eqb (length (bytes_of host value)) 32)) [
    | inl e ↦ (ground (arith, e), cc (rw e at h))
    | inr e ↦ absurd (cc (rw e at h))
  ]

  module _ (predicate : PredicateDefinition) (pkg : ProofPackage) where
    abbrev public_inputs : PublicInputs
    public_inputs = pkg.public_inputs

    pub build_verifier_toml-IsInput :
        (toml : String)
        → build_verifier_toml host predicate pkg ≡ ok toml
        → IsInput host predicate pkg toml
    unfolding build_verifier_toml
    build_verifier_toml-IsInput toml h =
        let (stamps, s, h1) = bind-ok (stamp_lines host predicate pkg) _ toml h in
        let (root, r, h2) =
          bind-ok (bytes_to_toml_array host public_inputs.commitment_root) _ toml h1 in
        let (product, p, h3) =
          bind-ok (bytes_to_toml_array host public_inputs.product_binding) _ toml h2 in
        let (requester, q, h4) =
          bind-ok (bytes_to_toml_array host public_inputs.requester_binding) _ toml h3 in
        let (forbidden, f, h5) =
          bind-ok (forbidden_lines host (forbidden_hash public_inputs.extra)) _ toml h4 in
        let (root_length, root_is) = bytes_to_toml_array-ok public_inputs.commitment_root root r in
        let (product_length, product_is) =
          bytes_to_toml_array-ok public_inputs.product_binding product p in
        let (requester_length, requester_is) =
          bytes_to_toml_array-ok public_inputs.requester_binding requester q in
        record {
          stamps = stamps;
          forbidden = forbidden;
          stamps_are = s;
          forbidden_are = f;
          root_length = root_length;
          product_length = product_length;
          requester_length = requester_length;
          text_is = rw (root_is, product_is, requester_is) (sym (value_is _ _ h5));
        }

module _ (host : Host) (circuits_dir : Option String) (predicate : PredicateDefinition) where
  module _ (pkg : ProofPackage) (disk : Disk) (dir : String) where
    prepare-files :
        ready host circuits_dir predicate ≡ ok dir
        → finish host
            (prepare host circuits_dir predicate pkg disk).0
            (prepare host circuits_dir predicate pkg disk).1
          ≡ verdict host dir pkg (build_verifier_toml host predicate pkg)
    unfolding prepare finish
    prepare-files h = elim (Result-cases (build_verifier_toml host predicate pkg)) [
      | inl (e, b) ↦ ground (arith, b)
      | inr (toml, b) ↦ ground (
        arith,
        b,
        JsMap.get-set dir dir (host.hex_bytes pkg.proof) disk.proofs,
        JsMap.get-set dir dir toml disk.tomls,
        eq_refl dir,
      )
    ]

  answer-valid : (o : Option String) → (answer o).valid ≡ true → o ≡ none
  answer-valid none h = refl
  answer-valid (some message) h = absurd (cc h)

  -- A call without interference is valid only if nargo has accepted the package's own files.
  pub valid-accepted :
      (pkg : ProofPackage) (disk : Disk)
      → (verify_with_noir_cli host circuits_dir predicate pkg disk).0.valid ≡ true
      → (dir : String) × (toml : String) × (ready host circuits_dir predicate ≡ ok dir)
        × (build_verifier_toml host predicate pkg ≡ ok toml)
        × (host.nargo_verify dir (some (host.hex_bytes pkg.proof)) (some toml) ≡ none)
  unfolding verify_with_noir_cli prepare finish
  valid-accepted pkg disk h = elim (Result-cases (ready host circuits_dir predicate)) [
    | inl (e, r) ↦ absurd (ground (arith, r, h))
    | inr (dir, r) ↦
        let valid : (verdict host dir pkg (build_verifier_toml host predicate pkg)).valid ≡ true =
          sym (ap (λ x. x.valid) (prepare-files pkg disk dir r)) ∙ h in
        elim (Result-cases (build_verifier_toml host predicate pkg)) [
          | inl (e, b) ↦ absurd (cc (rw b at valid))
          | inr (toml, b) ↦ (dir, toml, r, b, answer-valid _ (rw b at valid))
        ]
  ]

  -- If a second request for the same predicate prepares its files before the first one's nargo reads
  -- them, and both input files can be built, the first request gets the second one's verdict.
  pub finish-prepare_race :
      (first second : ProofPackage) (disk : Disk) (dir toml toml' : String)
      → ready host circuits_dir predicate ≡ ok dir
      → build_verifier_toml host predicate first ≡ ok toml
      → build_verifier_toml host predicate second ≡ ok toml'
      → let (started, disk') = prepare host circuits_dir predicate first disk in
        finish host started (prepare host circuits_dir predicate second disk').1
        ≡ verdict host dir second (ok toml')
  unfolding prepare finish
  finish-prepare_race first second disk dir toml toml' h b b' =
      let own = host.hex_bytes first.proof in
      let other = host.hex_bytes second.proof in
      ground (
        arith,
        JsMap.get-set dir dir other (JsMap.set dir own disk.proofs),
        JsMap.get-set dir dir toml' (JsMap.set dir toml disk.tomls),
        eq_refl dir,
      )

  -- The backend never reads the nonce or the time of a package.
  pub noir_ignores_nonce :
      (pkg : ProofPackage) (disk : Disk) (nonce : String) (generated_at : ℕ)
      → verify_with_noir_cli host circuits_dir predicate
          (record pkg { nonce = nonce; generated_at = generated_at })
          disk
        ≡ verify_with_noir_cli host circuits_dir predicate pkg disk
  unfolding verify_with_noir_cli prepare build_verifier_toml
  noir_ignores_nonce pkg disk nonce generated_at = refl
