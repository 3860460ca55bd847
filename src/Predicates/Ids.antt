-- ===== src/Predicates/Ids.antt =====
-- Canonical identifiers: printing and parsing.
use Prim.Native.Char.{Char, code}
use mathlib.Core.Option
use text.Mathlib.TextEquality.{Char-path}
use text.Mathlib.TextLemmas.{nil-append, cons-append}
use zk_dpp_royalty_protocol.Common.{
  String, ◌≡◌, ◌≢◌, refl, sym, inl, inr, Option, none, some, arith, eqb, Option-cases, Bool-cases,
}
use zk_dpp_royalty_protocol.Predicates.{
  PredicateId, ◌⧺◌, canonical_id, parse_id, split_last, extend_split,
}

-- No underscore stands in the text.
abbrev pub IsPlain : String → Type 0
IsPlain String.[] = Unit
IsPlain (String.◌∷◌ c s) = (code c ≢ b'_') × IsPlain s

split_last_of_IsPlain : (s : String) → IsPlain s → split_last s ≡ none
unfolding split_last
split_last_of_IsPlain String.[] h = refl
split_last_of_IsPlain (String.◌∷◌ c s) (p, h) = rw (split_last_of_IsPlain s h) (ground arith)

split_last-underscore : (a b : String) → IsPlain b → split_last (a ⧺ "_" ⧺ b) ≡ some (a, b)
unfolding split_last
split_last-underscore String.[] b h =
    rw (nil-append ("_" ⧺ b), cons-append) (rw (nil-append b, split_last_of_IsPlain b h) refl)
split_last-underscore (String.◌∷◌ c s) b h = rw cons-append (rw (split_last-underscore s b h) refl)

-- Printing an identifier and parsing the result gives the identifier back, if its version holds no
-- underscore.
pub parse_id-canonical_id :
    (id : PredicateId) → IsPlain id.version → parse_id (canonical_id id) ≡ some id
unfolding parse_id canonical_id
parse_id-canonical_id id h = rw (split_last-underscore id.name id.version h) refl

IsPlain-of_split_last : (s : String) → split_last s ≡ none → IsPlain s
unfolding split_last
IsPlain-of_split_last String.[] h = tt
IsPlain-of_split_last (String.◌∷◌ c s) h = elim (Option-cases (split_last s)) [
  | inl e ↦ (ground (arith, e), IsPlain-of_split_last s e)
  | inr (t, e) ↦ absurd (ground (arith, e))
]

extend_split_sound :
    (c : Char) (s : String) (o : Option (String × String)) (a b : String)
    → (o ≡ none → IsPlain s)
    → ((a' : String) → o ≡ some (a', b) → (s ≡ a' ⧺ "_" ⧺ b) × IsPlain b)
    → extend_split c s o ≡ some (a, b)
    → (String.◌∷◌ c s ≡ a ⧺ "_" ⧺ b) × IsPlain b
extend_split_sound c s none a b plain ih h = elim (Bool-cases (eqb (code c) b'_')) [
  | inl e ↦
      let is_underscore = Char-path c "_" (ground arith) in
      let ea : "" ≡ a = ground arith in
      let eb : s ≡ b = ground arith in
      (
        rw (← ea, ← eb, is_underscore) (rw (nil-append ("_" ⧺ s)) (rw cons-append (rw nil-append))),
        rw eb at (plain refl),
      )
  | inr e ↦ absurd (ground arith)
]
extend_split_sound c s (some (a', b')) a b plain ih h =
    let ea : String.◌∷◌ c a' ≡ a = cc in
    let eb : b' ≡ b = cc in
    let (split, last) = ih a' (rw eb) in (rw (← ea) (rw cons-append (rw (← split))), last)

split_last_sound : (s a b : String) → split_last s ≡ some (a, b) → (s ≡ a ⧺ "_" ⧺ b) × IsPlain b
unfolding split_last
split_last_sound String.[] a b h = absurd (cc h)
split_last_sound (String.◌∷◌ c s) a b h =
    extend_split_sound c s (split_last s) a b (IsPlain-of_split_last s)
      (λ a' e. split_last_sound s a' b e) h

-- A text that parses is the canonical form of the parsed identifier, whose version holds no
-- underscore.
pub canonical_id-parse_id :
    (s : String) (id : PredicateId)
    → parse_id s ≡ some id
    → (canonical_id id ≡ s) × IsPlain id.version
unfolding parse_id canonical_id
canonical_id-parse_id s id h =
    let (found, parsed, same) = (Option.map-eq-some_iff _ _).0 h in
    let (split, last) = split_last_sound s found.0 found.1 parsed in rw (← same) (sym split, last)
