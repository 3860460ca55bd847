-- ===== src/Common/Doubles.antt =====
-- Numbers of JavaScript (IEEE 754 doubles) that are finite and not negative: each is written as the
-- natural number of units of 2 ^ -1074, the smallest double, that it makes up. A sum is rounded to
-- 53 significant bits, to the even neighbour if it lies in the middle. Sums stay far below 2 ^ 1024
-- here, so that no infinite number occurs.
use Prim.Native.Nat.{ℕ, zero, suc, ◌+◌, ◌*◌, ◌/◌, ◌%◌, ◌^◌}
use mathlib.Core.Bool.{true, false}
use zk_dpp_royalty_protocol.Common.Tests.{ltb, eqb, if◌then◌else◌}

-- How many bits of a number stand after its first 53; a double has at most 2098 bits.
abbrev excess : (rounds : ℕ) → ℕ → ℕ
excess zero n = 0
excess (suc rounds) n = elim (ltb n 9_007_199_254_740_992) [
  | true ↦ 0
  | false ↦ suc (excess rounds (n / 2))
]

-- A multiple of the unit u, with the rest r above the q-th multiple.
abbrev rounded : (q r u : ℕ) → ℕ
rounded q r u =
    if ltb (2 * r) u
    then q * u
    else if ltb u (2 * r)
    then (q + 1) * u
    else if eqb (q % 2) 0
    then q * u
    else (q + 1) * u

unfoldable pub round : ℕ → ℕ
round n = let u = 2 ^ excess 2_098 n in rounded (n / u) (n % u) u

-- `a + b`
unfoldable pub plus : ℕ → ℕ → ℕ
unfolding round
plus a b = round (a + b)
