-- ===== src/Prelude/Text.antt =====
-- Texts as lists of code points, decimal numbers, and sorting by a key.
use Prim.Native.Nat.{ℕ, zero, suc, ◌+◌, ◌/◌, ◌%◌}
use Prim.Native.Char.{code}
use Prim.Native.String.{String}
use mathlib.Core.List.{List, [], ◌∷◌}
use mathlib.Core.Logic.{inl, inr}
use callsense.Prelude.Lists.{All, Any}
use callsense.Prelude.Tests.{Bool-cases, ◌==◌, leb, if◌then◌else◌}

-- The code points of a string.
abbrev pub codes : String → List ℕ
codes String.[] = []
codes (String.◌∷◌ c s) = code c ∷ codes s

digits_from : ℕ → ℕ → List ℕ → List ℕ
digits_from zero n rest = rest
digits_from (suc fuel) n rest =
    let more = digits_from fuel (n / 10) ((b'0' + n % 10) ∷ rest) in
    if n / 10 == 0 then (b'0' + n % 10) ∷ rest else more

-- str(n); n + 1 digits are more than enough.
unfoldable pub show_nat : ℕ → List ℕ
unfolding digits_from
show_nat n = digits_from (suc n) n []

module _ {A : Type 0} (key : A → ℕ) where
  insert_by : A → List A → List A
  insert_by x [] = x ∷ []
  insert_by x (y ∷ ys) =
      let rest = insert_by x ys in if leb (key x) (key y) then x ∷ y ∷ ys else y ∷ rest

  -- ORDER BY; rows with one key stay in their order.
  unfoldable pub sort_by : List A → List A
  unfolding insert_by
  sort_by [] = []
  sort_by (x ∷ xs) = insert_by x (sort_by xs)

  insert_by-All : (P : A → Type 0) (x : A) (xs : List A) → P x → All P xs → All P (insert_by x xs)
  unfolding insert_by
  insert_by-All P x [] h k = (h, tt)
  insert_by-All P x (y ∷ ys) h k = elim (Bool-cases (leb (key x) (key y))) [
    | inl e ↦ rw e (h, k)
    | inr e ↦ rw e (k.0, insert_by-All P x ys h k.1)
  ]

  pub sort_by-All : (P : A → Type 0) (xs : List A) → All P xs → All P (sort_by xs)
  unfolding sort_by
  sort_by-All P [] h = tt
  sort_by-All P (x ∷ xs) h = insert_by-All P x (sort_by xs) h.0 (sort_by-All P xs h.1)

  insert_by-here : (P : A → Type 0) (x : A) (xs : List A) → P x → Any P (insert_by x xs)
  unfolding insert_by
  insert_by-here P x [] h = inl h
  insert_by-here P x (y ∷ ys) h = elim (Bool-cases (leb (key x) (key y))) [
    | inl e ↦ rw e (inl h)
    | inr e ↦ rw e (inr (insert_by-here P x ys h))
  ]

  insert_by-there : (P : A → Type 0) (x : A) (xs : List A) → Any P xs → Any P (insert_by x xs)
  unfolding insert_by
  insert_by-there P x [] h = absurd h
  insert_by-there P x (y ∷ ys) h = elim (Bool-cases (leb (key x) (key y))) [
    | inl e ↦ rw e (inr h)
    | inr e ↦ rw e (elim h [ inl k ↦ inl k | inr k ↦ inr (insert_by-there P x ys k) ])
  ]

  pub sort_by-Any : (P : A → Type 0) (xs : List A) → Any P xs → Any P (sort_by xs)
  unfolding sort_by
  sort_by-Any P [] h = absurd h
  sort_by-Any P (x ∷ xs) (inl h) = insert_by-here P x (sort_by xs) h
  sort_by-Any P (x ∷ xs) (inr h) = insert_by-there P x (sort_by xs) (sort_by-Any P xs h)
