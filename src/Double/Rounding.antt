-- ===== src/Double/Rounding.antt =====
-- Division with rounding to the nearest number, ties to even.
use native.Mathlib.Decide.{dec_lt}
use callsense.Prelude.{ℕ, ◌+◌, ◌*◌, ◌/◌, ◌%◌, ◌≤◌, ◌<◌, ◌&&◌, ◌||◌, arith, if◌then◌else◌, ltb, ◌==◌}

unfoldable pub round_div : ℕ → ℕ → ℕ
round_div n d =
    let q = n / d in
    let r = n % d in if ltb d (2 * r) || (2 * r == d && q % 2 == 1) then q + 1 else q

mul_mono_left : (a b d : ℕ) → a ≤ b → a * d ≤ b * d
mul_mono_left a b d h = grind arith

-- Rounding does not pass a whole bound from below,
pub round_div-ge : (n d k : ℕ) → 0 < d → k * d ≤ n → k ≤ round_div n d
unfolding round_div
round_div-ge n d k h b = grind arith

-- nor from above.
pub round_div-le : (n d k : ℕ) → 0 < d → n ≤ k * d → round_div n d ≤ k
unfolding round_div
round_div-le n d k h b = elim (dec_lt (n / d) k) [
  | yes below ↦ ground arith
  | no above ↦ grind (arith, mul_mono_left k (n / d) d (omega arith))
]
