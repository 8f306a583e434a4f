-- ===== src/Double.antt =====
-- Python's `float` (IEEE 754 binary64), for values that are not negative: a number of units of
-- 2^-1074, the smallest positive double. Every finite double is such a number, and every result
-- is rounded to 53 significant bits, ties to even. Infinities and NaN do not occur here.
mod Rounding
pub use Rounding.{round_div-le, round_div-ge}
use callsense.Prelude.{
  ℕ, zero, suc, ◌+◌, ◌-◌, ◌*◌, ◌/◌, ◌%◌, ◌^◌, Bool, if◌then◌else◌, leb, ltb, ◌==◌,
}
unfoldable pub use Rounding.{round_div}

abbrev pub Double : Type 0
Double = ℕ

-- The double 1.0, in units.
unfoldable pub one : Double
one = 2 ^ 1074

-- The number of binary digits of a number below 2^(2^k).
unfoldable pub bit_length : ℕ → ℕ → ℕ
bit_length zero n = if n == 0 then 0 else 1
bit_length (suc k) n =
    let p = 2 ^ (2 ^ k) in
    let high = bit_length k (n / p) in
    let low = bit_length k n in if leb p n then 2 ^ k + high else low

-- The double nearest to the quotient n / d, which is below 2^4096 units.
unfoldable pub round_double : ℕ → ℕ → Double
unfolding bit_length round_div
round_double n d = let scale = 2 ^ (bit_length 12 (n / d) - 53) in round_div n (d * scale) * scale

unfoldable pub from_int : ℕ → Double
unfolding round_double one
from_int n = round_double (n * one) 1

-- The literal n / 10^k.
unfoldable pub decimal : ℕ → ℕ → Double
unfolding round_double one
decimal n k = round_double (n * one) (10 ^ k)

unfoldable pub add : Double → Double → Double
unfolding round_double
add a b = round_double (a + b) 1

-- a - b where b is not greater.
unfoldable pub sub : Double → Double → Double
unfolding round_double
sub a b = round_double (a - b) 1

unfoldable pub mul : Double → Double → Double
unfolding round_double one
mul a b = round_double (a * b) one

unfoldable pub div : Double → Double → Double
unfolding round_double one
div a b = round_double (a * one) b

-- round(x, k), as a number of units of 10^-k. Python rounds the exact binary value.
unfoldable pub round_places : ℕ → Double → ℕ
unfolding round_div one
round_places k x = round_div (x * 10 ^ k) one
