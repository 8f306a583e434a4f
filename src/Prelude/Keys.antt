-- ===== src/Prelude/Keys.antt =====
-- Primary keys: no two rows share one, and those that a sequence gave lie below its next value.
use Prim.Native.Nat.{ℕ, suc, ◌<◌}
use mathlib.Core.Path.{◌≡◌, refl}
use mathlib.Core.Logic.{◌≢◌, ◌⊎◌, inl, inr}
use mathlib.Core.Bool.{Bool, true, false}
use mathlib.Core.Option.{some}
use mathlib.Core.List.{List, [], ◌∷◌, ◌++◌}
use native.Mathlib.Omega.{arith}
use callsense.Prelude.Tests.{◌==◌, Bool-cases}
use callsense.Prelude.Lists.{All}
use callsense.Prelude.Rows.{find_where, update_where, exists_where, All₂, All₂-refl}

module _ {A : Type 0} where
  pub All-map : (P Q : A → Type 0) (xs : List A) → ((x : A) → P x → Q x) → All P xs → All Q xs
  All-map P Q [] f h = tt
  All-map P Q (x ∷ xs) f h = (f x h.0, All-map P Q xs f h.1)

  pub All-zip : (P Q : A → Type 0) (xs : List A) → All P xs → All Q xs → All (λ x. P x × Q x) xs
  All-zip P Q [] h k = tt
  All-zip P Q (x ∷ xs) h k = ((h.0, k.0), All-zip P Q xs h.1 k.1)

  pub All-append : (P : A → Type 0) (xs ys : List A) → All P xs → All P ys → All P (xs ++ ys)
  All-append P [] ys h k = k
  All-append P (x ∷ xs) ys h k = (h.0, All-append P xs ys h.1 k)

  pub All-update_where :
      (P : A → Type 0) (q : A → Bool) (f : A → A) (xs : List A)
      → ((x : A) → P x → P (f x))
      → All P xs
      → All P (update_where q f xs)
  unfolding update_where
  All-update_where P q f [] k h = tt
  All-update_where P q f (x ∷ xs) k h = elim (Bool-cases (q x)) [
    | inl e ↦ rw e (k x h.0, All-update_where P q f xs k h.1)
    | inr e ↦ rw e (h.0, All-update_where P q f xs k h.1)
  ]

  -- What an UPDATE makes of a property, written and unwritten rows apart.
  pub All-update_where_split :
      (P Q : A → Type 0) (q : A → Bool) (f : A → A) (xs : List A)
      → ((x : A) → q x ≡ true → P x → Q (f x))
      → ((x : A) → q x ≡ false → P x → Q x)
      → All P xs
      → All Q (update_where q f xs)
  unfolding update_where
  All-update_where_split P Q q f [] on off h = tt
  All-update_where_split P Q q f (x ∷ xs) on off h = elim (Bool-cases (q x)) [
    | inl e ↦ rw e (on x e h.0, All-update_where_split P Q q f xs on off h.1)
    | inr e ↦ rw e (off x e h.0, All-update_where_split P Q q f xs on off h.1)
  ]

  pub exists_where-All :
      (p : A → Bool) (xs : List A) → exists_where p xs ≡ false → All (λ x. p x ≡ false) xs
  unfolding exists_where
  exists_where-All p [] h = tt
  exists_where-All p (x ∷ xs) h = (ground arith, exists_where-All p xs (ground arith))

  pub exists_where-All₂ :
      (R : A → A → Type 0) (p : A → Bool) (xs ys : List A)
      → ((x y : A) → R x y → p y ≡ p x)
      → All₂ R xs ys
      → exists_where p ys ≡ exists_where p xs
  unfolding exists_where
  exists_where-All₂ R p [] [] f r = refl
  exists_where-All₂ R p [] (y ∷ ys) f r = elim r [ ]
  exists_where-All₂ R p (x ∷ xs) [] f r = elim r [ ]
  exists_where-All₂ R p (x ∷ xs) (y ∷ ys) f r = rw (f x y r.0, exists_where-All₂ R p xs ys f r.1)

  pub All-find_where :
      (P : A → Type 0) (p : A → Bool) (xs : List A) (x : A)
      → All P xs
      → find_where p xs ≡ some x
      → P x
  unfolding find_where
  All-find_where P p [] x h e = cc
  All-find_where P p (y ∷ xs) x h e = elim (Bool-cases (p y)) [
    | inl t ↦ let same : y ≡ x = ground arith in rw same at h.0
    | inr t ↦ All-find_where P p xs x h.1 (ground arith)
  ]

module _ {A : Type 0} (key : A → ℕ) where
  abbrev pub Distinct : List A → Type 0
  Distinct [] = Unit
  Distinct (x ∷ xs) = All (λ y. key y ≢ key x) xs × Distinct xs

  abbrev pub Below : ℕ → List A → Type 0
  Below n xs = All (λ x. key x < n) xs

  pub Below-suc : (n : ℕ) (xs : List A) → Below n xs → Below (suc n) xs
  Below-suc n xs = All-map (λ x. key x < n) (λ x. key x < suc n) xs (λ x h. omega arith)

  pub Distinct-update_where :
      (q : A → Bool) (f : A → A) (xs : List A)
      → ((x : A) → key (f x) ≡ key x)
      → Distinct xs
      → Distinct (update_where q f xs)
  unfolding update_where
  Distinct-update_where q f [] k h = tt
  Distinct-update_where q f (x ∷ xs) k h =
      let rest = All-update_where (λ y. key y ≢ key x) q f xs (λ y n. rw (k y) n) h.0 in
      elim (Bool-cases (q x)) [
        | inl e ↦ rw (e, k x) (rest, Distinct-update_where q f xs k h.1)
        | inr e ↦ rw e (rest, Distinct-update_where q f xs k h.1)
      ]

  -- A row with a fresh key.
  pub Distinct-snoc :
      (n : ℕ) (xs : List A) (row : A)
      → key row ≡ n
      → Below n xs
      → Distinct xs
      → Distinct (xs ++ row ∷ [])
  Distinct-snoc n [] row e b d = (tt, tt)
  Distinct-snoc n (x ∷ xs) row e b d = (
    All-append (λ y. key y ≢ key x) xs (row ∷ []) d.0 (omega arith, tt),
    Distinct-snoc n xs row e b.1 d.1,
  )

  absent :
      (k : ℕ) (f : A → A) (xs : List A)
      → All (λ y. key y ≢ k) xs
      → update_where (λ y. key y == k) f xs ≡ xs
  unfolding update_where
  absent k f [] h = refl
  absent k f (x ∷ xs) h = ground (arith, absent k f xs h.1)

  -- An UPDATE of the row with a key that was found changes that row alone.
  pub update-only_found :
      (k : ℕ) (f : A → A) (xs : List A) (x : A)
      → Distinct xs
      → find_where (λ y. key y == k) xs ≡ some x
      → All₂ (λ a b. (b ≡ a) ⊎ ((a ≡ x) × (b ≡ f x))) xs (update_where (λ y. key y == k) f xs)
  unfolding find_where update_where
  update-only_found k f [] x d e = cc
  update-only_found k f (y ∷ xs) x d e = elim (Bool-cases (key y == k)) [
    | inl t ↦
        let same : y ≡ x = ground arith in
        let keys : key y ≡ k = ground arith in
        rw (t, absent k f xs (rw keys at d.0)) (inr (same, rw same), All₂-refl _ (λ a. inl refl) xs)
    | inr t ↦ rw t (inl refl, update-only_found k f xs x d.1 (ground arith))
  ]

  All-All₂ :
      (k : ℕ) (R : A → A → Type 0) (xs ys : List A)
      → ((x y : A) → R x y → key y ≡ key x)
      → All₂ R xs ys
      → All (λ y. key y ≢ k) xs
      → All (λ y. key y ≢ k) ys
  All-All₂ k R [] [] f r h = tt
  All-All₂ k R [] (y ∷ ys) f r h = elim r [ ]
  All-All₂ k R (x ∷ xs) [] f r h = elim r [ ]
  All-All₂ k R (x ∷ xs) (y ∷ ys) f r h = (λ e. h.0 (cc (f x y r.0)), All-All₂ k R xs ys f r.1 h.1)

  -- Rows that keep their keys stay distinct.
  pub Distinct-All₂ :
      (R : A → A → Type 0) (xs ys : List A)
      → ((x y : A) → R x y → key y ≡ key x)
      → All₂ R xs ys
      → Distinct xs
      → Distinct ys
  Distinct-All₂ R [] [] f r d = tt
  Distinct-All₂ R [] (y ∷ ys) f r d = elim r [ ]
  Distinct-All₂ R (x ∷ xs) [] f r d = elim r [ ]
  Distinct-All₂ R (x ∷ xs) (y ∷ ys) f r d =
      (rw (f x y r.0) (All-All₂ (key x) R xs ys f r.1 d.0), Distinct-All₂ R xs ys f r.1 d.1)

  -- An UPDATE of the row with another key is not seen.
  pub find_where-update_other :
      (i o : ℕ) (f : A → A) (xs : List A)
      → o ≢ i
      → ((x : A) → key (f x) ≡ key x)
      → find_where (λ y. key y == i) (update_where (λ y. key y == o) f xs)
        ≡ find_where (λ y. key y == i) xs
  unfolding find_where update_where
  find_where-update_other i o f [] ne k = refl
  find_where-update_other i o f (x ∷ xs) ne k = elim (Bool-cases (key x == o)) [
    | inl e ↦ rw e (ground (arith, k x, find_where-update_other i o f xs ne k))
    | inr e ↦ rw e (ground (arith, find_where-update_other i o f xs ne k))
  ]

  -- The row that is found is the only one with its key.
  pub All-only_found :
      (k : ℕ) (xs : List A) (x : A)
      → Distinct xs
      → find_where (λ y. key y == k) xs ≡ some x
      → All (λ y. key y ≡ k → y ≡ x) xs
  unfolding find_where
  All-only_found k [] x d e = cc
  All-only_found k (y ∷ xs) x d e = elim (Bool-cases (key y == k)) [
    | inl t ↦
        let same : y ≡ x = ground arith in
        let keys : key y ≡ k = ground arith in
        (
          λ _. same,
          All-map (λ z. key z ≢ key y) (λ z. key z ≡ k → z ≡ x) xs (λ z ne e'. absurd (ne (cc)))
              d.0,
        )
    | inr t ↦ (λ e'. absurd (ground arith), All-only_found k xs x d.1 (ground arith))
  ]
