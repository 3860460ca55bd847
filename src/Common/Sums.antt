-- ===== src/Common/Sums.antt =====
-- Sums of a measure over a list, which no reordering changes.
use Prim.Native.Nat.{ℕ, ◌+◌}
use mathlib.Core.Path.{◌≡◌, refl, ap}
use mathlib.Core.Logic.{∥∥₁_elim}
use mathlib.Core.List.{List, [], ◌∷◌, ◌++◌, Perm, Permᴰ}
use native.Mathlib.Nat.{ℕ_set}
use native.Mathlib.Omega.{arith}
use zk_dpp_royalty_protocol.Common.Lists.{length}
use zk_dpp_royalty_protocol.Common.Group.{sum_of}

module _ {ℓ} {A : Type ℓ} (f : A → ℕ) where
  sum_of-permᴰ : {xs ys : List A} → Permᴰ xs ys → sum_of f xs ≡ sum_of f ys
  sum_of-permᴰ Permᴰ.nil = refl
  sum_of-permᴰ (Permᴰ.cons e p) = omega (arith, ap f e, sum_of-permᴰ p)
  sum_of-permᴰ (Permᴰ.swap e e') = omega (arith, ap f e, ap f e')
  sum_of-permᴰ (Permᴰ.trans p q) = omega (arith, sum_of-permᴰ p, sum_of-permᴰ q)

  pub sum_of-perm : {xs ys : List A} → Perm xs ys → sum_of f xs ≡ sum_of f ys
  sum_of-perm p = ∥∥₁_elim p (ℕ_set _ _) sum_of-permᴰ

  pub sum_of-append : (xs ys : List A) → sum_of f (xs ++ ys) ≡ sum_of f xs + sum_of f ys
  sum_of-append [] ys = omega arith
  sum_of-append (x ∷ xs) ys = omega (arith, sum_of-append xs ys)

pub sum_of-one {ℓ} : {A : Type ℓ} (xs : List A) → sum_of (λ x. 1) xs ≡ length xs
sum_of-one [] = refl
sum_of-one (x ∷ xs) = omega (arith, sum_of-one xs)
