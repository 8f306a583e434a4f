-- ===== src/Analysis/Regex/Needs.antt =====
-- A pattern that needs a kind of character finds nothing in a text without one.
use callsense.Prelude.{
  ℕ, zero, suc, Bool, true, false, none, some, Option, List, [], ◌∷◌, ◌≡◌, refl, ◌⊎◌, inl, inr,
  arith, All, All-append, Bool-cases, length,
}
use callsense.Models.Tables.{Text}
use callsense.Analysis.Regex.{
  Regex, one, boundary, then_, or_, times, many, Place, at_boundary, take_one, collect, rounds,
  ends, match_at, sub_from, sub,
}

-- Every match takes a character of the kind.
abbrev pub Needs : (ℕ → Bool) → Regex → Type 0
Needs p (one q) = (c : ℕ) → q c ≡ true → p c ≡ true
Needs p boundary = ⊥
Needs p (then_ r s) = Needs p r ⊎ Needs p s
Needs p (or_ r s) = Needs p r × Needs p s
Needs p (times zero k r) = ⊥
Needs p (times (suc n) k r) = Needs p r
Needs p (many r) = ⊥

abbrev pub Without : (ℕ → Bool) → Text → Type 0
Without p s = All (λ c. p c ≡ false) s

pub collect-All :
    (P : Place → Type 0) (f : Place → List Place) (places : List Place)
    → ((x : Place) → P x → All P (f x))
    → All P places
    → All P (collect f places)
collect-All P f [] h k = tt
collect-All P f (x ∷ places) h k =
    All-append P (f x) (collect f places) (h x k.0) (collect-All P f places h k.1)

collect-nil :
    (P : Place → Type 0) (f : Place → List Place) (places : List Place)
    → ((x : Place) → P x → f x ≡ [])
    → All P places
    → collect f places ≡ []
collect-nil P f [] h k = refl
collect-nil P f (x ∷ places) h k = rw (h x k.0) (collect-nil P f places h k.1)

pub rounds-All :
    (P : Place → Type 0) (f : Place → List Place) (n k : ℕ) (x : Place)
    → ((y : Place) → P y → All P (f y))
    → P x
    → All P (rounds f n k x)
unfolding rounds
rounds-All P f zero zero x h p = (p, tt)
rounds-All P f zero (suc k) x h p =
    All-append P (collect (rounds f zero k) (f x)) (x ∷ [])
      (collect-All P (rounds f zero k) (f x) (λ y q. rounds-All P f zero k y h q) (h x p)) (p, tt)
rounds-All P f (suc n) k x h p =
    collect-All P (rounds f n k) (f x) (λ y q. rounds-All P f n k y h q) (h x p)

module _ (is_word : ℕ → Bool) (p : ℕ → Bool) where
  abbrev Rest : Place → Type 0
  Rest x = Without p x.rest

  take_one-Rest : (q : ℕ → Bool) (taken s : Text) → Without p s → All Rest (take_one q taken s)
  take_one-Rest q taken [] h = tt
  take_one-Rest q taken (c ∷ s) h = elim (Bool-cases (q c)) [
    | inl e ↦ rw e (h.1, tt)
    | inr e ↦ rw e tt
  ]

  -- What is left after a match is of what was left before.
  ends-Rest : (r : Regex) (x : Place) → Rest x → All Rest (ends is_word r x)
  unfolding ends
  ends-Rest (one q) x h = take_one-Rest q x.taken x.rest h
  ends-Rest boundary x h = elim (Bool-cases (at_boundary is_word x)) [
    | inl e ↦ rw e (h, tt)
    | inr e ↦ rw e tt
  ]
  ends-Rest (then_ r s) x h =
      collect-All Rest (ends is_word s) (ends is_word r x) (ends-Rest s) (ends-Rest r x h)
  ends-Rest (or_ r s) x h =
      All-append Rest (ends is_word r x) (ends is_word s x) (ends-Rest r x h) (ends-Rest s x h)
  ends-Rest (times n k r) x h = rounds-All Rest (ends is_word r) n k x (ends-Rest r) h
  ends-Rest (many r) x h = rounds-All Rest (ends is_word r) 0 (length x.rest) x (ends-Rest r) h

  take_one-nil :
      (q : ℕ → Bool) (taken s : Text)
      → ((c : ℕ) → q c ≡ true → p c ≡ true)
      → Without p s
      → take_one q taken s ≡ []
  take_one-nil q taken [] needs h = refl
  take_one-nil q taken (c ∷ s) needs h = elim (Bool-cases (q c)) [
    | inl e ↦ let t = needs c e in absurd (ground (arith, t))
    | inr e ↦ rw e refl
  ]

  ends-nil : (r : Regex) (x : Place) → Needs p r → Rest x → ends is_word r x ≡ []
  unfolding ends rounds
  ends-nil (one q) x needs h = take_one-nil q x.taken x.rest needs h
  ends-nil boundary x needs h = absurd needs
  ends-nil (then_ r s) x (inl needs) h = rw (ends-nil r x needs h) refl
  ends-nil (then_ r s) x (inr needs) h =
      collect-nil Rest (ends is_word s) (ends is_word r x) (λ y. ends-nil s y needs)
        (ends-Rest r x h)
  ends-nil (or_ r s) x needs h = rw (ends-nil r x needs.0 h) (ends-nil s x needs.1 h)
  ends-nil (times zero k r) x needs h = absurd needs
  ends-nil (times (suc n) k r) x needs h = rw (ends-nil r x needs h) refl
  ends-nil (many r) x needs h = absurd needs

  pub match_at-none :
      (r : Regex) (last : Option ℕ) (s : Text)
      → Needs p r
      → Without p s
      → match_at is_word r last s ≡ none
  unfolding match_at
  match_at-none r last s needs h =
      rw (ends-nil r (record { last = last; taken = []; rest = s }) needs h) refl

  module _ {A : Type 0} (r : Regex) (f : Text → Text × List A) (needs : Needs p r) where
    sub_from-eq :
        (last : Option ℕ) (s : Text) → Without p s → sub_from is_word r f 0 last s ≡ (s, [])
    unfolding sub_from
    sub_from-eq last [] h = refl
    sub_from-eq last (c ∷ s) h =
        rw (match_at-none r last (c ∷ s) needs h, sub_from-eq (some c) s h.1) refl

    pub sub-eq : (s : Text) → Without p s → sub is_word r f s ≡ (s, [])
    unfolding sub
    sub-eq s h = sub_from-eq none s h
