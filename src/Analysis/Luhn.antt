-- ===== src/Analysis/Luhn.antt =====
-- `_luhn_ok` of backend/analysis/redaction.py: the check digit of a card number.
use callsense.Prelude.{
  ℕ, ◌+◌, ◌-◌, ◌*◌, ◌%◌, Bool, false, List, [], ◌∷◌, ◌==◌, ltb, if◌then◌else◌, length, select_where,
  map,
}
use callsense.Models.Tables.{Text}

-- [int(c) for c in digits if c.isdigit()], where `is_decimal` and `value` are Python's Unicode tables.
-- What is a digit and no decimal, such as a superscript, does not match the pattern for cards.
unfoldable pub digits_of : (ℕ → Bool) → (ℕ → ℕ) → Text → List ℕ
unfolding select_where
digits_of is_decimal value digits = map value (select_where is_decimal digits)

abbrev pub doubled : ℕ → ℕ
doubled n = if ltb 9 (n * 2) then n * 2 - 9 else n * 2

unfoldable pub luhn_sum : ℕ → ℕ → List ℕ → ℕ → ℕ
luhn_sum parity i [] total = total
luhn_sum parity i (n ∷ nums) total =
    luhn_sum parity (i + 1) nums (total + (if i % 2 == parity then doubled n else n))

unfoldable pub luhn_ok : (ℕ → Bool) → (ℕ → ℕ) → Text → Bool
unfolding digits_of luhn_sum
luhn_ok is_decimal value digits =
    let nums = digits_of is_decimal value digits in
    if ltb (length nums) 13 then false else luhn_sum (length nums % 2) 0 nums 0 % 10 == 0
