-- ===== src/Base/Decimal.antt =====
-- Python's `Decimal` amounts with a fixed number of places, as integers in the last place, and
-- `quantize(..., rounding=ROUND_HALF_UP)`, which rounds a tie away from zero.
use Prim.Native.Nat.{ℕ, ◌+◌, ◌*◌, ◌/◌, ◌≤◌, ◌<◌}
use native.Mathlib.Nat.{div-mul-le_self, le-div_iff_mul-le, div-lt_iff_lt-mul}
use native.Mathlib.Omega.{arith}
use flipradar.Base.Int.{ℤ, pos_part, neg_part, sub_ℕ}

-- The integer nearest to n / d, a tie going up.
unfoldable pub round_half_up : ℕ → ℕ → ℕ
round_half_up n d = (2 * n + d) / (2 * d)

-- The same on a signed numerator: the magnitude is rounded, and the sign put back.
unfoldable pub quantize : ℤ → ℕ → ℤ
unfolding round_half_up
quantize a d = sub_ℕ (round_half_up (pos_part a) d) (round_half_up (neg_part a) d)

-- A multiple of the unit rounds to at least its number of units.
pub le_round_half_up : (n d k : ℕ) → 0 < d → k * d ≤ n → k ≤ round_half_up n d
unfolding round_half_up
le_round_half_up n d k h e =
    let whole : k * (2 * d) ≤ 2 * n + d = omega (arith, e) in
    (le-div_iff_mul-le {k = 2 * d} {x = k} {y = 2 * n + d} (omega arith)).1 whole

pub round_half_up_le : (n d k : ℕ) → 0 < d → n ≤ k * d → round_half_up n d ≤ k
unfolding round_half_up
round_half_up_le n d k h e =
    let below : 2 * n + d < (k + 1) * (2 * d) = omega (arith, e, h) in
    let small : (2 * n + d) / (2 * d) < k + 1 =
      (div-lt_iff_lt-mul {k = 2 * d} {x = 2 * n + d} {y = k + 1} (omega arith)).1 below in
    omega arith

-- A rounded number grows with the number.
pub round_half_up-le : (m n d : ℕ) → 0 < d → m ≤ n → round_half_up m d ≤ round_half_up n d
unfolding round_half_up
round_half_up-le m n d h e =
    let step : (2 * m + d) / (2 * d) * (2 * d) ≤ 2 * n + d =
      let down : (2 * m + d) / (2 * d) * (2 * d) ≤ 2 * m + d =
        div-mul-le_self (2 * m + d) (2 * d) in
      omega (arith, down) in
    (le-div_iff_mul-le {k = 2 * d} {x = (2 * m + d) / (2 * d)} {y = 2 * n + d} (omega arith)).1 step
