-- ===== src/Gateway/NoirCli.antt =====
-- services/verify-gateway/src/services/noir-cli.ts. The host (file system queries, Node's path and
-- buffer functions, the `nargo` program) is a record. The two files that the code writes into the
-- circuit's directory are the state `Disk`, keyed by that directory; writing them does not fail.
-- The code runs up to the start of `nargo verify` without an `await` (`prepare`); the program then
-- reads the files while other requests may run (`finish`).
pub mod Race
mod Tests
use Prim.Native.String
use text.Mathlib.Text.{starts_with}
use zk_dpp_royalty_protocol.Common.{
  ℕ, zero, suc, String, Bool, true, false, not, Option, none, some, List, [], ◌∷◌, ◌++◌, length,
  ◌==◌, eqb, truthy, or_else, if◌then◌else◌,
}
use zk_dpp_royalty_protocol.Common.JsMap
use zk_dpp_royalty_protocol.Common.Results.{Result, ok, err, ◌>>=◌, ◌>>◌, reject_if}
use zk_dpp_royalty_protocol.Predicates.{PredicateDefinition, ◌⧺◌}
use zk_dpp_royalty_protocol.Schemas.{JsonValue, json_text, json_other}
use zk_dpp_royalty_protocol.Gateway.Types.{ProofPackage, ProofResult}

pub record Host : Type 0 where
  -- fs.existsSync, path.join, path.dirname, process.cwd()
  pub exists : String → Bool
  pub join : String → String → String
  pub dirname : String → String
  pub cwd : String
  -- Buffer.from(text, 'hex'), and the decimal text of a number
  pub hex_bytes : String → List ℕ
  pub decimal : ℕ → String
  -- `nargo compile` in a directory; `some` is the message of the thrown error
  pub compile : String → Option String
  -- `nargo verify` in a directory that holds a proof file and a Verifier.toml
  pub nargo_verify : String → Option (List ℕ) → Option String → Option String

pub record Disk : Type 0 where
  pub proofs : List (String × List ℕ)
  pub tomls : List (String × String)

-- The loop of `resolveCircuitDir`: at most six directories, from the working directory upwards.
walk_up : Host → ℕ → String → String → Option String
walk_up host zero current circuit_path = none
walk_up host (suc rounds) current circuit_path =
    let candidate = host.join current "circuits/noir/predicates" in
    let parent = host.dirname current in
    let higher = walk_up host rounds parent circuit_path in
    if host.exists candidate
    then some (host.join candidate circuit_path)
    else if parent == current
    then none
    else higher

-- `circuitsDir && fs.existsSync(circuitsDir)`
abbrev is_configured : Host → Option String → Bool
is_configured host none = false
is_configured host (some dir) = if truthy dir then host.exists dir else false

unfoldable pub resolve_circuit_dir : Host → Option String → String → Result String
unfolding walk_up
resolve_circuit_dir host circuits_dir circuit_path =
    if is_configured host circuits_dir
    then ok (host.join (or_else circuits_dir "") circuit_path)
    else elim (walk_up host 6 host.cwd circuit_path) [
      | none ↦ err "NOIR_CIRCUITS_DIR not found. Set NOIR_CIRCUITS_DIR to circuits/noir/predicates"
      | some dir ↦ ok dir
    ]

unfoldable pub ensure_compiled : Host → String → String → Result (Unit {0})
ensure_compiled host circuit_dir package_name =
    if host.exists (host.join (host.join circuit_dir "target") (package_name ⧺ ".json"))
    then ok tt
    else elim (host.compile circuit_dir) [ none ↦ ok tt | some message ↦ err message ]

-- `bytes.join(', ')`
unfoldable pub comma_list : Host → List ℕ → String
comma_list host [] = ""
comma_list host (b ∷ []) = host.decimal b
comma_list host (b ∷ c ∷ bs) = host.decimal b ⧺ ", " ⧺ comma_list host (c ∷ bs)

-- `value.slice(2)`
slice_2 : String → String
slice_2 (String.◌∷◌ c (String.◌∷◌ d s)) = s
slice_2 s = ""

unfoldable pub strip_hex_prefix : String → String
unfolding slice_2
strip_hex_prefix value = if starts_with value "0x" then slice_2 value else value

unfoldable pub bytes_to_toml_array : Host → String → Result String
bytes_to_toml_array host hex =
    let bytes = host.hex_bytes (strip_hex_prefix hex) in
    if not (eqb (length bytes) 32)
    then err "Expected 32-byte hex value for binding/hash"
    else ok ("[" ⧺ comma_list host bytes ⧺ "]")

-- `lines.join('\n') + '\n'`
unfoldable pub unlines : List String → String
unlines [] = "\n"
unlines (l ∷ []) = l ⧺ "\n"
unlines (l ∷ k ∷ ls) = l ⧺ "\n" ⧺ unlines (k ∷ ls)

abbrev quoted : String → String → String
quoted name value = name ⧺ " = \"" ⧺ value ⧺ "\""

unfoldable pub threshold_lines : Host → Option ℕ → List String
threshold_lines host none = []
threshold_lines host (some n) = quoted "threshold" (host.decimal n) ∷ []

-- `String(value)`
abbrev string_of : JsonValue → String
string_of (json_text s) = s
string_of (json_other shown is_truthy) = shown

-- `publicInputs.timestamp ?? extra?.checkTimestamp`
check_timestamp : Host → Option ℕ → List (String × JsonValue) → Result (List String)
check_timestamp host (some n) extra = ok (quoted "check_timestamp" (host.decimal n) ∷ [])
check_timestamp host none extra = elim (JsMap.get "checkTimestamp" extra) [
  | none ↦ err "Missing timestamp for CERT_VALID verification"
  | some value ↦ ok (quoted "check_timestamp" (string_of value) ∷ [])
]

unfoldable pub stamp_lines : Host → PredicateDefinition → ProofPackage → Result (List String)
unfolding check_timestamp
stamp_lines host predicate pkg =
    if predicate.name == "CERT_VALID"
    then check_timestamp host pkg.public_inputs.timestamp pkg.public_inputs.extra
    else elim pkg.public_inputs.timestamp [
      | none ↦ ok []
      | some n ↦ ok (quoted "timestamp" (host.decimal n) ∷ [])
    ]

-- The text of a value that counts as true.
abbrev true_text : Option JsonValue → Option String
true_text none = none
true_text (some (json_text s)) = if truthy s then some s else none
true_text (some (json_other shown is_truthy)) = if is_truthy then some shown else none

-- `extra?.forbiddenListHash || extra?.forbidden_list_hash`, if it counts as true
unfoldable pub forbidden_hash : List (String × JsonValue) → Option String
forbidden_hash extra = elim (true_text (JsMap.get "forbiddenListHash" extra)) [
  | some hash ↦ some hash
  | none ↦ true_text (JsMap.get "forbidden_list_hash" extra)
]

unfoldable pub forbidden_lines : Host → Option String → Result (List String)
forbidden_lines host none = ok []
forbidden_lines host (some hash) = do
  bytes ← bytes_to_toml_array host hash
  ok (("forbidden_list_hash = " ⧺ bytes) ∷ [])

unfoldable pub build_verifier_toml : Host → PredicateDefinition → ProofPackage → Result String
unfolding threshold_lines stamp_lines forbidden_hash forbidden_lines
build_verifier_toml host predicate pkg = do
  stamps ← stamp_lines host predicate pkg
  root ← bytes_to_toml_array host pkg.public_inputs.commitment_root
  product ← bytes_to_toml_array host pkg.public_inputs.product_binding
  requester ← bytes_to_toml_array host pkg.public_inputs.requester_binding
  forbidden ← forbidden_lines host (forbidden_hash pkg.public_inputs.extra)
  ok (
      unlines (
        threshold_lines host pkg.public_inputs.threshold
        ++ (stamps
            ++ (("commitment_root = " ⧺ root)
                ∷ ("product_binding = " ⧺ product)
                ∷ ("requester_binding = " ⧺ requester)
                ∷ forbidden))))

-- What a call has done when it starts `nargo verify`, or the error that it has thrown before that.
write_toml : String → Result String → Disk → Result String × Disk
write_toml dir (err e) disk = (err e, disk)
write_toml dir (ok toml) disk = (ok dir, record disk { tomls = JsMap.set dir toml disk.tomls })

unfoldable pub ready : Host → Option String → PredicateDefinition → Result String
ready host circuits_dir predicate = do
  dir ← resolve_circuit_dir host circuits_dir predicate.circuit_path
  ensure_compiled host dir predicate.circuit_path
  ok dir

unfoldable pub prepare :
    Host → Option String → PredicateDefinition → ProofPackage → Disk → Result String × Disk
unfolding write_toml
prepare host circuits_dir predicate pkg disk = elim (ready host circuits_dir predicate) [
  | err e ↦ (err e, disk)
  | ok dir ↦
      write_toml dir (build_verifier_toml host predicate pkg)
        (record disk { proofs = JsMap.set dir (host.hex_bytes pkg.proof) disk.proofs })
]

abbrev pub answer : Option String → ProofResult
answer none = record { valid = true; error = "" }
answer (some message) = record { valid = false; error = message }

unfoldable pub finish : Host → Result String → Disk → ProofResult
finish host (err e) disk = answer (some e)
finish host (ok dir) disk =
    answer (host.nargo_verify dir (JsMap.get dir disk.proofs) (JsMap.get dir disk.tomls))

-- The call with no other request in between.
unfoldable pub verify_with_noir_cli :
    Host → Option String → PredicateDefinition → ProofPackage → Disk → ProofResult × Disk
verify_with_noir_cli host circuits_dir predicate pkg disk =
    let (started, disk') = prepare host circuits_dir predicate pkg disk in
    (finish host started disk', disk')
