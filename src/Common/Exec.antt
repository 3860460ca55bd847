-- ===== src/Common/Exec.antt =====
-- Code that changes a state and may throw: what it did to the state before an error stays done.
use Prim.Native.String.{String}
use zk_dpp_royalty_protocol.Common.Results.{Result, ok, err}

abbrev pub Exec {ℓ κ} : Type ℓ → Type κ → Type (ℓ ⊔ κ)
Exec W A = W → Result A × W

abbrev pub after {ℓ κ ν} :
    {W : Type ℓ} {A : Type κ} {B : Type ν} → (A → Exec W B) → Result A × W → Result B × W
after k (ok a, w) = k a w
after k (err e, w) = (err e, w)

infixl 5 ◌>>=◌ ◌>>◌
abbrev pub ◌>>=◌ {ℓ κ ν} :
    {W : Type ℓ} {A : Type κ} {B : Type ν} → Exec W A → (A → Exec W B) → Exec W B
m >>= k = λ w. after k (m w)

abbrev pub ◌>>◌ {ℓ ν} : {W : Type ℓ} {B : Type ν} → Exec W (Unit {0}) → Exec W B → Exec W B
m >> k = m >>= λ _. k

abbrev pub pure {ℓ κ} : {W : Type ℓ} {A : Type κ} → A → Exec W A
pure a = λ w. (ok a, w)

-- A call that leaves the state alone.
abbrev pub lift {ℓ κ} : {W : Type ℓ} {A : Type κ} → Result A → Exec W A
lift r = λ w. (r, w)

-- `try { … } catch (error) { … }`, once the `try` block has run
abbrev pub caught {ℓ κ} :
    {W : Type ℓ} {A : Type κ} → (String → Exec W A) → Result A × W → Result A × W
caught k (ok a, w) = (ok a, w)
caught k (err e, w) = k e w
