-- ===== src/Common/Rounding.antt =====
-- `Math.round` and `Math.ceil` on an exact non-negative fraction n / d.
use Prim.Native.Nat.{ℕ, ◌+◌, ◌-◌, ◌*◌, ◌/◌, ◌≤◌, ◌<◌}
use native.Mathlib.Omega.{arith}

-- `Math.round(n / d)`: to the nearest whole number, a tie upwards.
unfoldable pub round_half_up : ℕ → ℕ → ℕ
round_half_up n d = (2 * n + d) / (2 * d)

-- `Math.ceil(n / d)`
unfoldable pub ceil_div : ℕ → ℕ → ℕ
ceil_div n d = (n + d - 1) / d

-- The result is within half a unit of the fraction.
pub round_half_up_near :
    (n d : ℕ)
    → 0 < d
    → (2 * d * round_half_up n d ≤ 2 * n + d) × (2 * n < 2 * d * round_half_up n d + d)
unfolding round_half_up
round_half_up_near n d h = grind arith
