-- ===== src/Prelude/Rows.antt =====
-- What the SQL statements do to a table, read as a list of rows: `WHERE` is a Boolean test.
use Prim.Native.Nat.{ℕ, ◌+◌}
use mathlib.Core.Path.{◌≡◌, refl}
use mathlib.Core.Bool.{Bool, true, false, ◌||◌}
use mathlib.Core.Option.{Option, none, some}
use mathlib.Core.List.{List, [], ◌∷◌, ◌++◌}
use mathlib.Core.Logic.{inl, inr}
use native.Mathlib.Omega.{arith}
use callsense.Prelude.Tests.{if◌then◌else◌, Bool-cases}

module _ {ℓ} {A : Type ℓ} where
  -- SELECT … WHERE p LIMIT 1, and `.first()` of a result.
  unfoldable pub find_where : (A → Bool) → List A → Option A
  find_where p [] = none
  find_where p (x ∷ xs) = if p x then some x else find_where p xs

  -- SELECT … WHERE p
  unfoldable pub select_where : (A → Bool) → List A → List A
  select_where p [] = []
  select_where p (x ∷ xs) = let rest = select_where p xs in if p x then x ∷ rest else rest

  -- UPDATE … SET f WHERE p
  unfoldable pub update_where : (A → Bool) → (A → A) → List A → List A
  update_where p f [] = []
  update_where p f (x ∷ xs) = (if p x then f x else x) ∷ update_where p f xs

  -- SELECT 1 … WHERE p, as a test for a row.
  unfoldable pub exists_where : (A → Bool) → List A → Bool
  exists_where p [] = false
  exists_where p (x ∷ xs) = p x || exists_where p xs

  -- SELECT count(*) … WHERE p
  unfoldable pub count_where : (A → Bool) → List A → ℕ
  count_where p [] = 0
  count_where p (x ∷ xs) = (if p x then 1 else 0) + count_where p xs

  -- Two tables of the same length, related row by row.
  abbrev pub All₂ : (A → A → Type 0) → List A → List A → Type 0
  All₂ R [] [] = Unit
  All₂ R [] (y ∷ ys) = ⊥
  All₂ R (x ∷ xs) [] = ⊥
  All₂ R (x ∷ xs) (y ∷ ys) = R x y × All₂ R xs ys

  pub All₂-refl : (R : A → A → Type 0) → ((x : A) → R x x) → (xs : List A) → All₂ R xs xs
  All₂-refl R r [] = tt
  All₂-refl R r (x ∷ xs) = (r x, All₂-refl R r xs)

  pub All₂-map :
      (R S : A → A → Type 0)
      → ((x y : A) → R x y → S x y)
      → (xs ys : List A) → All₂ R xs ys
      → All₂ S xs ys
  All₂-map R S f [] [] h = tt
  All₂-map R S f [] (y ∷ ys) h = h
  All₂-map R S f (x ∷ xs) [] h = h
  All₂-map R S f (x ∷ xs) (y ∷ ys) h = (f x y h.0, All₂-map R S f xs ys h.1)

-- The lemmas take A in Type 0, where the rows of the database are.
module _ {A : Type 0} where
  pub All₂-update_where :
      (p : A → Bool) (f : A → A) (R : A → A → Type 0)
      → ((x : A) → p x ≡ true → R x (f x))
      → ((x : A) → R x x)
      → (xs : List A) → All₂ R xs (update_where p f xs)
  unfolding update_where
  All₂-update_where p f R on off [] = tt
  All₂-update_where p f R on off (x ∷ xs) = elim (Bool-cases (p x)) [
    | inl e ↦ rw e (on x e, All₂-update_where p f R on off xs)
    | inr e ↦ rw e (off x, All₂-update_where p f R on off xs)
  ]

  pub find_where-holds :
      (p : A → Bool) (xs : List A) (x : A) → find_where p xs ≡ some x → p x ≡ true
  unfolding find_where
  find_where-holds p [] x h = cc
  find_where-holds p (y ∷ xs) x h = ground (arith, find_where-holds p xs x)

  -- Two tests that agree on every row find the same row.
  pub find_where-append :
      (p : A → Bool) (xs ys : List A)
      → find_where p (xs ++ ys)
        ≡ (elim (find_where p xs) [ none ↦ find_where p ys | some x ↦ some x ])
  unfolding find_where
  find_where-append p [] ys = refl
  find_where-append p (x ∷ xs) ys = ground (arith, find_where-append p xs ys)

  -- An UPDATE that keeps the outcome of the search's test moves the row that is found.
  pub find_where-update :
      (p q : A → Bool) (f : A → A) (xs : List A)
      → ((x : A) → p (f x) ≡ p x)
      → find_where p (update_where q f xs)
        ≡ (elim (find_where p xs) [ none ↦ none | some x ↦ some (if q x then f x else x) ])
  unfolding find_where update_where
  find_where-update p q f [] k = refl
  find_where-update p q f (x ∷ xs) k = elim (Bool-cases (q x)) [
    | inl e ↦ rw (e, k x) (ground (arith, find_where-update p q f xs k))
    | inr e ↦ rw e (ground (arith, find_where-update p q f xs k))
  ]

  pub exists_where-append :
      (p : A → Bool) (xs ys : List A)
      → exists_where p (xs ++ ys) ≡ (exists_where p xs || exists_where p ys)
  unfolding exists_where
  exists_where-append p [] ys = refl
  exists_where-append p (x ∷ xs) ys = ground (arith, exists_where-append p xs ys)

  pub select_where-append :
      (p : A → Bool) (xs ys : List A)
      → select_where p (xs ++ ys) ≡ select_where p xs ++ select_where p ys
  unfolding select_where
  select_where-append p [] ys = refl
  select_where-append p (x ∷ xs) ys = ground (arith, select_where-append p xs ys)

  pub find_where-none :
      (p : A → Bool) (xs : List A) → exists_where p xs ≡ false → find_where p xs ≡ none
  unfolding exists_where find_where
  find_where-none p [] h = refl
  find_where-none p (x ∷ xs) h = ground (arith, find_where-none p xs)

  pub find_where-some :
      (p : A → Bool) (xs : List A) → exists_where p xs ≡ true → (x : A) × (find_where p xs ≡ some x)
  unfolding exists_where find_where
  find_where-some p [] h = cc
  find_where-some p (x ∷ xs) h = elim (Bool-cases (p x)) [
    | inl e ↦ (x, rw e)
    | inr e ↦ let (y, found) = find_where-some p xs (ground arith) in (y, rw e found)
  ]

  -- A row that an UPDATE keeps by its test is not written.
  pub update_where-none :
      (p : A → Bool) (f : A → A) (xs : List A)
      → exists_where p xs ≡ false
      → update_where p f xs ≡ xs
  unfolding exists_where update_where
  update_where-none p f [] h = refl
  update_where-none p f (x ∷ xs) h = ground (arith, update_where-none p f xs)
