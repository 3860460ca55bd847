-- ===== src/Common/Group.antt =====
-- Grouping the items of a list in a `Map`: `let v = m.get(k); if (!v) {v = fresh; m.set(k, v) }`,
-- followed by an update of the object `v`, which the map holds.
use Prim.Native.Nat.{ℕ, ◌+◌}
use Prim.Native.String.{String}
use mathlib.Core.Path.{◌≡◌, refl, ap, ◌∙◌}
use mathlib.Core.Option.{Option, none, some}
use mathlib.Core.List.{List, [], ◌∷◌, foldl}
use native.Mathlib.Omega.{arith}
use text.Mathlib.Text.{◌==◌}
use text.Mathlib.TextEquality.{eq_iff}
use mathlib.Core.Logic.{inl, inr}
use zk_dpp_royalty_protocol.Common.Lists.{All, filter}
use zk_dpp_royalty_protocol.Common.Tests.{Bool-cases, if◌then◌else◌, or_else}
use zk_dpp_royalty_protocol.Common.JsMap

-- The sum of a measure over a list.
abbrev pub sum_of {ℓ} : {A : Type ℓ} → (A → ℕ) → List A → ℕ
sum_of f [] = 0
sum_of f (x ∷ xs) = f x + sum_of f xs

module _ {ℓ κ} {X : Type ℓ} {V : Type κ} (key : X → String) (fresh : X → V) (bump : X → V → V) where
  unfoldable pub put : X → List (String × V) → List (String × V)
  put x m = JsMap.set (key x) (bump x (or_else (JsMap.get (key x) m) (fresh x))) m

  unfoldable pub group : List X → List (String × V) → List (String × V)
  group [] m = m
  group (x ∷ xs) m = group xs (put x m)

  -- What the items of one key make of the entry that is there.
  abbrev pub gather : String → List X → Option V → Option V
  gather k [] o = o
  gather k (x ∷ xs) o = gather k xs (if key x == k then some (bump x (or_else o (fresh x))) else o)

  get-put :
      (k : String) (x : X) (m : List (String × V))
      → JsMap.get k (put x m)
        ≡ (if key x == k then some (bump x (or_else (JsMap.get k m) (fresh x))) else JsMap.get k m)
  unfolding put
  get-put k x m = ground (
    arith,
    JsMap.get-set (key x) k (bump x (or_else (JsMap.get (key x) m) (fresh x))) m,
    eq_iff (key x) k,
  )

  -- A group is what its own items make, in order, and no other item counts.
  pub get-group :
      (k : String) (xs : List X) (m : List (String × V))
      → JsMap.get k (group xs m) ≡ gather k xs (JsMap.get k m)
  unfolding group
  get-group k [] m = refl
  get-group k (x ∷ xs) m = get-group k xs (put x m) ∙ ap (gather k xs) (get-put k x m)

  -- What a list of items of one key makes: nothing, or the first item's entry and the updates in
  -- order.
  abbrev pub folded : List X → Option V
  folded [] = none
  folded (x ∷ xs) = some (foldl (λ v y. bump y v) (bump x (fresh x)) xs)

  gather-some :
      (k : String) (xs : List X) (v : V)
      → gather k xs (some v) ≡ some (foldl (λ w y. bump y w) v (filter (λ x. key x == k) xs))
  gather-some k [] v = refl
  gather-some k (x ∷ xs) v = elim (Bool-cases (key x == k)) [
    | inl e ↦ rw e (gather-some k xs (bump x v))
    | inr e ↦ rw e (gather-some k xs v)
  ]

  gather-none : (k : String) (xs : List X) → gather k xs none ≡ folded (filter (λ x. key x == k) xs)
  gather-none k [] = refl
  gather-none k (x ∷ xs) = elim (Bool-cases (key x == k)) [
    | inl e ↦ rw e (gather-some k xs (bump x (fresh x)))
    | inr e ↦ rw e (gather-none k xs)
  ]

  -- The entry of a key after grouping a list is what the items with that key make, in their order.
  pub get-group-folded :
      (k : String) (xs : List X) → JsMap.get k (group xs []) ≡ folded (filter (λ x. key x == k) xs)
  unfolding JsMap.get
  get-group-folded k xs = get-group k xs [] ∙ gather-none k xs

module _ {ℓ} {V : Type ℓ} (μ : V → ℕ) where
  abbrev held : Option V → ℕ
  held none = 0
  held (some v) = μ v

  sum_of-set :
      (k : String) (v : V) (m : List (String × V))
      → sum_of μ (JsMap.values (JsMap.set k v m)) + held (JsMap.get k m)
        ≡ sum_of μ (JsMap.values m) + μ v
  unfolding JsMap.set JsMap.get
  sum_of-set k v [] = omega arith
  sum_of-set k v ((j, w) ∷ m) = ground (arith, sum_of-set k v m)

module _ {ℓ κ} {V : Type ℓ} (P : V → Type κ) where
  AllValues-set :
      (k : String) (v : V) (m : List (String × V))
      → P v
      → All P (JsMap.values m)
      → All P (JsMap.values (JsMap.set k v m))
  unfolding JsMap.set
  AllValues-set k v [] p h = (p, tt)
  AllValues-set k v ((j, w) ∷ m) p (q, h) = elim (Bool-cases (j == k)) [
    | inl e ↦ rw (e, JsMap.set) (p, h)
    | inr e ↦ rw (e, JsMap.set) (q, AllValues-set k v m p h)
  ]

  AllValues-get :
      (k : String) (d : V) (m : List (String × V))
      → P d
      → All P (JsMap.values m)
      → P (or_else (JsMap.get k m) d)
  unfolding JsMap.get
  AllValues-get k d [] p h = p
  AllValues-get k d ((j, w) ∷ m) p (q, h) = elim (Bool-cases (j == k)) [
    | inl e ↦ rw (e, JsMap.get) q
    | inr e ↦ rw (e, JsMap.get) (AllValues-get k d m p h)
  ]

module _ {ℓ κ ν} {X : Type ℓ} {V : Type κ} (key : X → String) (fresh : X → V) (bump : X → V → V)
    (P : V → Type ν) (μ : V → ℕ) (w : X → ℕ) (starts : (x : X) → P (fresh x) × (μ (fresh x) ≡ 0))
    (grows : (x : X) (v : V) → P v → P (bump x v) × (μ (bump x v) ≡ μ v + w x)) where
  sum_of-put :
      (x : X) (m : List (String × V))
      → All P (JsMap.values m)
      → All P (JsMap.values (put key fresh bump x m))
        × (sum_of μ (JsMap.values (put key fresh bump x m)) ≡ sum_of μ (JsMap.values m) + w x)
  unfolding put
  sum_of-put x m h =
      let old = or_else (JsMap.get (key x) m) (fresh x) in
      let (kept, grown) = grows x old (AllValues-get P (key x) (fresh x) m (starts x).0 h) in
      (
        AllValues-set P (key x) (bump x old) m kept h,
        ground (arith, sum_of-set μ (key x) (bump x old) m, grown, (starts x).1),
      )

  -- A measure that starts at 0, and that an update moves by the item's weight, adds up over the
  -- groups to the weights of all items.
  pub sum_of-group :
      (xs : List X) (m : List (String × V))
      → All P (JsMap.values m)
      → All P (JsMap.values (group key fresh bump xs m))
        × (sum_of μ (JsMap.values (group key fresh bump xs m))
            ≡ sum_of μ (JsMap.values m) + sum_of w xs)
  unfolding group
  sum_of-group [] m h = (h, omega arith)
  sum_of-group (x ∷ xs) m h =
      let (kept, one) = sum_of-put x m h in
      let (all, total) = sum_of-group xs (put key fresh bump x m) kept in (all, omega arith)
