-- ===== src/Predicates/Generator/Substitution.antt =====
-- packages/predicate-lib/src/generator.ts: the placeholders of a template are replaced one after the
-- other by `String.prototype.replace`, whose replacement patterns are written out.
use Prim.Native.Char.{code}
use Prim.Native.String
use zk_dpp_royalty_protocol.Common.{
  ℕ, zero, suc, ◌-◌, String, Option, none, some, List, [], ◌∷◌, eqb, if◌then◌else◌,
}
use zk_dpp_royalty_protocol.Predicates.{◌⧺◌}
use zk_dpp_royalty_protocol.Shared.Auth.{strip_prefix}

-- The replacement pattern that starts with a dollar sign and has the second character `c`: the
-- text that it stands for, if it is one. The expressions here have no groups.
abbrev dollar : (match before after : String) → ℕ → Option String
dollar match before after c =
    if eqb c b'$'
    then some "$"
    else if eqb c b'&'
    then some match
    else if eqb c b'`'
    then some before
    else if eqb c b'\''
    then some after
    else none

abbrev append_or : Option String → (expanded literal : String) → String
append_or none expanded literal = literal
append_or (some t) expanded literal = t ⧺ expanded

-- The replacement of one match by `String.prototype.replace`.
abbrev pub expand : (match before after : String) → (value : String) → String
expand match before after String.[] = ""
expand match before after (String.◌∷◌ c String.[]) = String.◌∷◌ c ""
expand match before after (String.◌∷◌ c (String.◌∷◌ d s)) =
    let rest = expand match before after s in
    let literal = String.◌∷◌ c (expand match before after (String.◌∷◌ d s)) in
    if eqb (code c) b'$'
    then append_or (dollar match before after (code d)) rest literal
    else literal

abbrev replaced :
    (match value before : String) → Option String → (plain after_match : String) → String
replaced match value before none plain after_match = plain
replaced match value before (some after) plain after_match =
    expand match before after value ⧺ after_match

-- `text.replace(new RegExp(match, 'g'), value)` for a match that is no pattern, from a position on:
-- `before` is what stands before it, and `skip` characters belong to a match that was replaced.
abbrev pub replace_from : (match value before : String) (skip : ℕ) (text : String) → String
replace_from match value before skip String.[] = ""
replace_from match value before (suc skip) (String.◌∷◌ c s) =
    replace_from match value (before ⧺ String.◌∷◌ c "") skip s
replace_from match value before zero (String.◌∷◌ c s) =
    let seen = before ⧺ String.◌∷◌ c "" in
    let plain = String.◌∷◌ c (replace_from match value seen 0 s) in
    let after_match = replace_from match value seen (String.len match - 1) s in
    replaced match value before (strip_prefix match (String.◌∷◌ c s)) plain after_match

abbrev pub replace_all : (match value text : String) → String
replace_all match value text = replace_from match value "" 0 text

abbrev pub apply_substitutions : (template : String) → List (String × String) → String
apply_substitutions template [] = template
apply_substitutions template ((key, value) ∷ rest) =
    apply_substitutions (replace_all ("{{" ⧺ key ⧺ "}}") value template) rest
