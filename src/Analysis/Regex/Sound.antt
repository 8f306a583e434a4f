-- ===== src/Analysis/Regex/Sound.antt =====
-- A match is a piece of the text, and a `sub` that notes nothing changes nothing.
use callsense.Prelude.{
  ℕ, zero, suc, ◌-◌, ◌≤◌, Bool, none, some, Option, List, [], ◌∷◌, ◌++◌, ◌≡◌, refl, sym, ap, ◌∙◌,
  inl, inr, arith, All, All-map, All-append, append_assoc, Bool-cases, length, drop, length-append,
  drop-append,
}
use callsense.Models.Tables.{Text}
use callsense.Analysis.Regex.{
  Regex, one, boundary, then_, or_, times, many, Place, at_boundary, take_one, collect, rounds,
  ends, match_at, first_taken, replaced, sub_from, sub,
}
use callsense.Analysis.Regex.Needs.{Needs, collect-All, rounds-All}

-- What was taken and what is left are the text, and at least so much was taken.
abbrev pub IsIn : Text → ℕ → Place → Type 0
IsIn whole n x = (x.taken ++ x.rest ≡ whole) × (n ≤ length x.taken)

take_one-IsIn :
    (q : ℕ → Bool) (whole taken s : Text)
    → taken ++ s ≡ whole
    → All (IsIn whole (suc (length taken))) (take_one q taken s)
take_one-IsIn q whole taken [] h = tt
take_one-IsIn q whole taken (c ∷ s) h = elim (Bool-cases (q c)) [
  | inl e ↦
      rw e ((append_assoc taken (c ∷ []) s ∙ h, omega (arith, length-append taken (c ∷ []))), tt)
  | inr e ↦ rw e tt
]

IsIn-less :
    (whole : Text) (n m : ℕ) (xs : List Place)
    → n ≤ m
    → All (IsIn whole m) xs
    → All (IsIn whole n) xs
IsIn-less whole n m xs le h =
    All-map (IsIn whole m) (IsIn whole n) xs (λ x k. (k.0, omega (arith, le, k.1))) h

pub collect-then :
    (P Q : Place → Type 0) (f : Place → List Place) (places : List Place)
    → ((x : Place) → P x → All Q (f x))
    → All P places
    → All Q (collect f places)
collect-then P Q f [] h k = tt
collect-then P Q f (x ∷ places) h k =
    All-append Q (f x) (collect f places) (h x k.0) (collect-then P Q f places h k.1)

module _ (is_word : ℕ → Bool) (whole : Text) where
  ends-IsIn :
      (r : Regex) (n : ℕ) (x : Place) → IsIn whole n x → All (IsIn whole n) (ends is_word r x)
  unfolding ends
  ends-IsIn (one q) n x h =
      IsIn-less whole n (suc (length x.taken)) (take_one q x.taken x.rest) (omega (arith, h.1))
        (take_one-IsIn q whole x.taken x.rest h.0)
  ends-IsIn boundary n x h = elim (Bool-cases (at_boundary is_word x)) [
    | inl e ↦ rw e (h, tt)
    | inr e ↦ rw e tt
  ]
  ends-IsIn (then_ r s) n x h =
      collect-All (IsIn whole n) (ends is_word s) (ends is_word r x) (ends-IsIn s n)
        (ends-IsIn r n x h)
  ends-IsIn (or_ r s) n x h =
      All-append (IsIn whole n) (ends is_word r x) (ends is_word s x) (ends-IsIn r n x h)
        (ends-IsIn s n x h)
  ends-IsIn (times m k r) n x h = rounds-All (IsIn whole n) (ends is_word r) m k x (ends-IsIn r n) h
  ends-IsIn (many r) n x h =
      rounds-All (IsIn whole n) (ends is_word r) 0 (length x.rest) x (ends-IsIn r n) h

  -- A pattern that needs a character takes one.
  pub ends-more :
      (p : ℕ → Bool) (r : Regex) (n : ℕ) (x : Place)
      → Needs p r
      → IsIn whole n x
      → All (IsIn whole (suc n)) (ends is_word r x)
  unfolding ends rounds
  ends-more p (one q) n x needs h =
      IsIn-less whole (suc n) (suc (length x.taken)) (take_one q x.taken x.rest)
        (omega (arith, h.1)) (take_one-IsIn q whole x.taken x.rest h.0)
  ends-more p boundary n x needs h = absurd needs
  ends-more p (then_ r s) n x (inl needs) h =
      collect-All (IsIn whole (suc n)) (ends is_word s) (ends is_word r x) (ends-IsIn s (suc n))
        (ends-more p r n x needs h)
  ends-more p (then_ r s) n x (inr needs) h =
      collect-then (IsIn whole n) (IsIn whole (suc n)) (ends is_word s) (ends is_word r x)
        (λ y. ends-more p s n y needs) (ends-IsIn r n x h)
  ends-more p (or_ r s) n x needs h =
      All-append (IsIn whole (suc n)) (ends is_word r x) (ends is_word s x)
        (ends-more p r n x needs.0 h) (ends-more p s n x needs.1 h)
  ends-more p (times zero k r) n x needs h = absurd needs
  ends-more p (times (suc m) k r) n x needs h =
      collect-All (IsIn whole (suc n)) (rounds (ends is_word r) m k) (ends is_word r x)
        (λ y. rounds-All (IsIn whole (suc n)) (ends is_word r) m k y (ends-IsIn r (suc n)))
        (ends-more p r n x needs h)
  ends-more p (many r) n x needs h = absurd needs

-- A match is a first part of the text, and not empty.
match_at-front :
    (is_word p : ℕ → Bool) (r : Regex) (last : Option ℕ) (s m : Text)
    → Needs p r
    → match_at is_word r last s ≡ some m
    → (t : Text) × (m ++ t ≡ s) × (1 ≤ length m)
unfolding match_at
match_at-front is_word p r last s m needs h =
    let start : Place = record { last = last; taken = []; rest = s } in
    go (ends is_word r start) (ends-more is_word s p r 0 start needs (refl, omega arith)) h
  where
    go :
        (xs : List Place)
        → All (IsIn s 1) xs
        → first_taken xs ≡ some m
        → (t : Text) × (m ++ t ≡ s) × (1 ≤ length m)
    go [] k e = cc
    go (x ∷ xs) k e =
        let same : x.taken ≡ m = ground arith in
        (x.rest, ap (λ y. y ++ x.rest) (sym same) ∙ k.0.0, omega (arith, k.0.1, ap length same))

-- What follows a match, where the first character is not counted.
pub after_match :
    (m t : Text) (c : ℕ) (s : Text)
    → m ++ t ≡ c ∷ s
    → 1 ≤ length m
    → m ++ drop (length m - 1) s ≡ c ∷ s
after_match [] t c s h k = absurd (omega (arith, k))
after_match (d ∷ m) t c s h k =
    let size : suc (length m) - 1 ≡ length m = omega arith in
    let rest : m ++ t ≡ s = cc in
    ap (λ n. d ∷ (m ++ drop n s)) size
    ∙ ap (λ z. d ∷ (m ++ drop (length m) z)) (sym rest)
    ∙ ap (λ z. d ∷ (m ++ z)) (drop-append m t)
    ∙ h

pub append_nil_cases : {A : Type 0} (xs ys : List A) → xs ++ ys ≡ [] → (xs ≡ []) × (ys ≡ [])
append_nil_cases [] ys h = (refl, h)
append_nil_cases (x ∷ xs) ys h = absurd (ground arith)

module _ (is_word p : ℕ → Bool) {A : Type 0} (r : Regex) (f : Text → Text × List A)
    (needs : Needs p r) (same : (m : Text) → (f m).1 ≡ [] → (f m).0 ≡ m) where
  sub_from-unmarked :
      (skip : ℕ) (last : Option ℕ) (s : Text)
      → (sub_from is_word r f skip last s).1 ≡ []
      → (sub_from is_word r f skip last s).0 ≡ drop skip s
  unfolding sub_from
  sub_from-unmarked zero last [] h = refl
  sub_from-unmarked (suc skip) last [] h = refl
  sub_from-unmarked (suc skip) last (c ∷ s) h = sub_from-unmarked skip (some c) s h
  sub_from-unmarked zero last (c ∷ s) h =
      go (match_at is_word r last (c ∷ s)) (λ skip. sub_from is_word r f skip (some c) s)
        (λ m. match_at-front is_word p r last (c ∷ s) m needs)
        (λ skip. sub_from-unmarked skip (some c) s) h
    where
      go :
          (found : Option Text) (rest : ℕ → Text × List A)
          → ((m : Text) → found ≡ some m → (t : Text) × (m ++ t ≡ c ∷ s) × (1 ≤ length m))
          → ((skip : ℕ) → (rest skip).1 ≡ [] → (rest skip).0 ≡ drop skip s)
          → (replaced is_word r f found c rest).1 ≡ []
          → (replaced is_word r f found c rest).0 ≡ c ∷ s
      go none rest front ih h = ap (λ t. c ∷ t) (ih 0 h)
      go (some m) rest front ih h =
          let (t, whole, long) = front m refl in
          let (note, noted) = append_nil_cases (f m).1 (rest (length m - 1)).1 h in
          ap (λ x. x ++ (rest (length m - 1)).0) (same m note)
          ∙ ap (λ x. m ++ x) (ih (length m - 1) noted)
          ∙ after_match m t c s whole long

  -- Where nothing was noted nothing was changed.
  pub sub-unmarked : (s : Text) → (sub is_word r f s).1 ≡ [] → (sub is_word r f s).0 ≡ s
  unfolding sub
  sub-unmarked s h = sub_from-unmarked 0 none s h
