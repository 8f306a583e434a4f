-- ===== src/Analysis/Difflib.antt =====
-- `SequenceMatcher(None, a, b).ratio()` of Python's difflib, which backend/analysis/verify.py calls.
use callsense.Prelude.{
  ℕ, zero, suc, ◌+◌, ◌-◌, ◌/◌, Bool, not, ◌&&◌, List, [], ◌∷◌, ◌==◌, ltb, leb, if◌then◌else◌,
  length, take, drop, count_where,
}
use mathlib.Core.List.{reverse}
use callsense.Double.{Double, one, from_int, mul, div}
use callsense.Models.Tables.{Text}

pub record Match : Type 0 where
  pub i : ℕ
  pub j : ℕ
  pub size : ℕ

-- autojunk: in a text of 200 characters or more, those that make up over one percent.
unfoldable pub is_popular : Text → ℕ → Bool
is_popular b c = leb 200 (length b) && ltb (length b / 100 + 1) (count_where (λ d. d == c) b)

-- The lengths of the matches that end at one character of a and each character of b.
unfoldable pub next_lengths : (ℕ → Bool) → ℕ → ℕ → Text → List ℕ → List ℕ
next_lengths popular c diagonal [] lengths = []
next_lengths popular c diagonal (d ∷ b) [] =
    (if (c == d) && not (popular d) then diagonal + 1 else 0) ∷ next_lengths popular c 0 b []
next_lengths popular c diagonal (d ∷ b) (l ∷ lengths) =
    (if (c == d) && not (popular d) then diagonal + 1 else 0) ∷ next_lengths popular c l b lengths

-- `if k > bestsize`, over one row.
unfoldable pub best_in_row : ℕ → ℕ → List ℕ → Match → Match
best_in_row i j [] best = best
best_in_row i j (k ∷ row) best =
    best_in_row i (j + 1) row
      (if ltb best.size k then record { i = i + 1 - k; j = j + 1 - k; size = k } else best)

unfoldable pub best_match : (ℕ → Bool) → ℕ → Text → Text → List ℕ → Match → Match
unfolding next_lengths best_in_row
best_match popular i [] b lengths best = best
best_match popular i (c ∷ a) b lengths best =
    let row = next_lengths popular c 0 b lengths in
    best_match popular (i + 1) a b row (best_in_row i 0 row best)

unfoldable pub common_prefix : Text → Text → ℕ
common_prefix [] b = 0
common_prefix (c ∷ a) [] = 0
common_prefix (c ∷ a) (d ∷ b) = let rest = common_prefix a b in if c == d then suc rest else 0

-- The longest match without popular characters, extended to both sides by any.
unfoldable pub find_longest_match : (ℕ → Bool) → Text → Text → Match
unfolding best_match common_prefix
find_longest_match popular a b =
    let m = best_match popular 0 a b [] (record { i = 0; j = 0; size = 0 }) in
    let before = common_prefix (reverse (take m.i a)) (reverse (take m.j b)) in
    let after = common_prefix (drop (m.i + m.size) a) (drop (m.j + m.size) b) in
    record { i = m.i - before; j = m.j - before; size = before + m.size + after }

-- The sum of the sizes of the matching blocks. Each round takes a match out of a, so the length
-- of a is enough fuel.
unfoldable pub matches : (ℕ → Bool) → ℕ → Text → Text → ℕ
unfolding find_longest_match
matches popular zero a b = 0
matches popular (suc fuel) a b =
    let m = find_longest_match popular a b in
    let left = matches popular fuel (take m.i a) (take m.j b) in
    let right = matches popular fuel (drop (m.i + m.size) a) (drop (m.j + m.size) b) in
    if m.size == 0 then 0 else m.size + left + right

unfoldable pub ratio : Text → Text → Double
ratio a b =
    let total = length a + length b in
    if total == 0
    then one
    else div (mul (from_int 2) (from_int (matches (is_popular b) (length a) a b))) (from_int total)
