-- ===== src/Common/JsMap.antt =====
-- JavaScript's `Map` with string keys: entries in the order in which their keys were first set.
use Prim.Native.String.{String}
use mathlib.Core.Path.{◌≡◌, refl}
use mathlib.Core.Bool.{Bool, true}
use mathlib.Core.Option.{Option, none, some}
use mathlib.Core.List.{List, [], ◌∷◌}
use native.Mathlib.Omega.{arith}
use text.Mathlib.Text.{◌==◌}
use text.Mathlib.TextEquality.{eq_iff}
use zk_dpp_royalty_protocol.Common.Tests.{if◌then◌else◌, is_some}

module _ {ℓ} {V : Type ℓ} where
  -- m.get(k)
  unfoldable pub get : String → List (String × V) → Option V
  get k [] = none
  get k ((j, v) ∷ m) = if j == k then some v else get k m

  -- m.set(k, v): a key that is there keeps its place, a new one goes to the end
  unfoldable pub set : String → V → List (String × V) → List (String × V)
  set k v [] = (k, v) ∷ []
  set k v ((j, w) ∷ m) = if j == k then (j, v) ∷ m else (j, w) ∷ set k v m

  -- m.has(k)
  abbrev pub has : String → List (String × V) → Bool
  has k m = is_some (get k m)

  -- Array.from(m.values())
  abbrev pub values : List (String × V) → List V
  values [] = []
  values ((k, v) ∷ m) = v ∷ values m

  pub get-set :
      (k j : String) (v : V) (m : List (String × V))
      → get j (set k v m) ≡ (if k == j then some v else get j m)
  unfolding get set
  get-set k j v [] = refl
  get-set k j v ((i, w) ∷ m) = ground (arith, eq_iff k j, eq_iff i k, eq_iff i j, get-set k j v m)

  -- No key twice.
  abbrev pub IsMap : List (String × V) → Type ℓ
  IsMap [] = Unit
  IsMap ((k, v) ∷ m) = (get k m ≡ none) × IsMap m

  pub set-IsMap : (k : String) (v : V) (m : List (String × V)) → IsMap m → IsMap (set k v m)
  unfolding get set
  set-IsMap k v [] h = (refl, tt)
  set-IsMap k v ((i, w) ∷ m) (absent, h) =
      ground (arith, set-IsMap k v m h, get-set k i v m, eq_iff i k, eq_iff k i)

module _ {ℓ} {V : Type ℓ} (p : String → V → Bool) where
  -- The entries that satisfy a test, in order.
  abbrev pub keep : List (String × V) → List (String × V)
  keep [] = []
  keep ((k, v) ∷ m) = if p k v then (k, v) ∷ keep m else keep m

  abbrev pub kept : String → Option V → Option V
  kept k none = none
  kept k (some v) = if p k v then some v else none

  get-keep-none : (k : String) (m : List (String × V)) → get k m ≡ none → get k (keep m) ≡ none
  unfolding get
  get-keep-none k [] h = refl
  get-keep-none k ((i, w) ∷ m) h = ground (arith, get-keep-none k m)

  pub get-keep : (k : String) (m : List (String × V)) → IsMap m → get k (keep m) ≡ kept k (get k m)
  unfolding get
  get-keep k [] h = refl
  get-keep k ((i, w) ∷ m) (absent, h) =
      ground (arith, eq_iff i k, get-keep k m h, get-keep-none k m)

  -- The first entry of a key survives if it passes the test.
  pub get-keep-some :
      (k : String) (v : V) (m : List (String × V))
      → get k m ≡ some v
      → p k v ≡ true
      → get k (keep m) ≡ some v
  unfolding get
  get-keep-some k v [] h q = cc
  get-keep-some k v ((i, w) ∷ m) h q = ground (arith, eq_iff i k, get-keep-some k v m)

  pub keep-IsMap : (m : List (String × V)) → IsMap m → IsMap (keep m)
  keep-IsMap [] h = tt
  keep-IsMap ((i, w) ∷ m) (absent, h) = ground (arith, keep-IsMap m h, get-keep-none i m absent)
