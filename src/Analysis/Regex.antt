-- ===== src/Analysis/Regex.antt =====
-- The part of Python's `re` that backend/analysis/redaction.py uses: greedy patterns, tried from
-- left to right, and `sub` with a function.
pub mod Needs
pub mod Sound
use callsense.Prelude.{
  ℕ, zero, suc, Bool, true, false, not, ◌&&◌, ◌||◌, Option, none, some, List, [], ◌∷◌, ◌++◌, ◌-◌,
  if◌then◌else◌, length,
}
use callsense.Models.Tables.{Text}

pub data Regex : Type 0 where
  one : (ℕ → Bool) → Regex
  boundary : Regex
  then_ : Regex → Regex → Regex
  or_ : Regex → Regex → Regex
  -- r{n, n + k}
  times : ℕ → ℕ → Regex → Regex
  -- r*, for an r that takes a character or more
  many : Regex → Regex

-- Where a match stands: the character before, what was taken, and what is left.
pub record Place : Type 0 where
  pub last : Option ℕ
  pub taken : Text
  pub rest : Text

abbrev pub is_inside : (ℕ → Bool) → Option ℕ → Bool
is_inside is_word none = false
is_inside is_word (some c) = is_word c

abbrev pub next_inside : (ℕ → Bool) → Text → Bool
next_inside is_word [] = false
next_inside is_word (c ∷ s) = is_word c

abbrev pub differ : Bool → Bool → Bool
differ true b = not b
differ false b = b

-- \b
abbrev pub at_boundary : (ℕ → Bool) → Place → Bool
at_boundary is_word p = differ (is_inside is_word p.last) (next_inside is_word p.rest)

abbrev pub take_one : (ℕ → Bool) → Text → Text → List Place
take_one p taken [] = []
take_one p taken (c ∷ s) =
    if p c then record { last = some c; taken = taken ++ c ∷ []; rest = s } ∷ [] else []

abbrev pub collect : (Place → List Place) → List Place → List Place
collect f [] = []
collect f (p ∷ places) = f p ++ collect f places

-- The places where n to n + k rounds end, most rounds first.
unfoldable pub rounds : (Place → List Place) → ℕ → ℕ → Place → List Place
rounds f zero zero p = p ∷ []
rounds f zero (suc k) p = collect (rounds f zero k) (f p) ++ p ∷ []
rounds f (suc n) k p = collect (rounds f n k) (f p)

-- The places where a match from a place may end, in the order in which they are tried.
unfoldable pub ends : (ℕ → Bool) → Regex → Place → List Place
unfolding rounds
ends is_word (one p) place = take_one p place.taken place.rest
ends is_word boundary place = if at_boundary is_word place then place ∷ [] else []
ends is_word (then_ r s) place = collect (ends is_word s) (ends is_word r place)
ends is_word (or_ r s) place = ends is_word r place ++ ends is_word s place
ends is_word (times n k r) place = rounds (ends is_word r) n k place
ends is_word (many r) place = rounds (ends is_word r) 0 (length place.rest) place

abbrev pub first_taken : List Place → Option Text
first_taken [] = none
first_taken (p ∷ places) = some p.taken

-- The text of the match that begins at a place, if there is one.
unfoldable pub match_at : (ℕ → Bool) → Regex → Option ℕ → Text → Option Text
unfolding ends
match_at is_word r last s =
    first_taken (ends is_word r (record { last = last; taken = []; rest = s }))

-- r.sub(f, s) where f also gives what it notes; `skip` characters are still of the last match. The
-- patterns take one character or more.
module _ (is_word : ℕ → Bool) {A : Type 0} (r : Regex) (f : Text → Text × List A) where
  abbrev pub replaced : Option Text → ℕ → (ℕ → Text × List A) → Text × List A
  replaced none c go = let (t, noted) = go 0 in (c ∷ t, noted)
  replaced (some m) c go =
      let (out, note) = f m in let (t, noted) = go (length m - 1) in (out ++ t, note ++ noted)

  unfoldable pub sub_from : ℕ → Option ℕ → Text → Text × List A
  sub_from skip last [] = ([], [])
  sub_from (suc skip) last (c ∷ s) = sub_from skip (some c) s
  sub_from zero last (c ∷ s) =
      replaced (match_at is_word r last (c ∷ s)) c (λ skip. sub_from skip (some c) s)

  unfoldable pub sub : Text → Text × List A
  unfolding sub_from
  sub s = sub_from 0 none s
