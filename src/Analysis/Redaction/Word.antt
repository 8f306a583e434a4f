-- ===== src/Analysis/Redaction/Word.antt =====
-- Where a PAN is found: at a capital letter after no word character, up to no word character.
use mathlib.Core.Path.{subst, ap₂}
use callsense.Prelude.{
  ℕ, suc, ◌-◌, ◌≤◌, true, false, ◌&&◌, none, some, Option, List, [], ◌∷◌, ◌++◌, ◌≡◌, refl, sym, ap,
  ◌∙◌, inl, inr, arith, leb, All, All-append, Bool-cases, length, drop, drop-append,
}
use callsense.Models.Tables.{Text}
use callsense.Analysis.Regex.{
  one, boundary, then_, times, Place, at_boundary, differ, next_inside, take_one, collect, rounds,
  ends, match_at, first_taken,
}
use callsense.Analysis.Regex.Sound.{IsIn, ends-more}
use callsense.Analysis.Redaction.{Classes, pan}
use callsense.Analysis.Redaction.Followed.{Followed, is_in, Kept, pan-Followed}

nothing_taken : (xs : List Place) → first_taken xs ≡ none → xs ≡ []
nothing_taken [] h = refl
nothing_taken (x ∷ xs) h = absurd (ground arith)

collect-every :
    (Q : Place → Type 0) (f : Place → List Place) (xs : List Place)
    → ((x : Place) → All Q (f x))
    → All Q (collect f xs)
collect-every Q f [] h = tt
collect-every Q f (x ∷ xs) h = All-append Q (f x) (collect f xs) (h x) (collect-every Q f xs h)

-- The rest of a text after a first part whose first character is not counted.
rest_after :
    (m t : Text) (c : ℕ) (s : Text) → m ++ t ≡ c ∷ s → 1 ≤ length m → drop (length m - 1) s ≡ t
rest_after [] t c s h k = absurd (omega (arith, k))
rest_after (d ∷ m) t c s h k =
    let size : suc (length m) - 1 ≡ length m = omega arith in
    let rest : m ++ t ≡ s = cc in
    ap (λ n. drop n s) size ∙ ap (λ z. drop (length m) z) (sym rest) ∙ drop-append m t

module _ (u : Classes) (brackets : u.is_decimal b'[' ≡ false)
    (capitals : (c : ℕ) → (leb b'A' c && leb c b'Z') ≡ true → u.is_word c ≡ true)
    (decimals : (c : ℕ) → u.is_decimal c ≡ true → u.is_word c ≡ true) where
  pub pan-none :
      (last : Option ℕ) (c : ℕ) (s t : Text)
      → Kept u (some c) s t
      → match_at u.is_word (pan u) last (c ∷ s) ≡ none
      → match_at u.is_word (pan u) last (c ∷ t) ≡ none
  unfolding match_at
  pan-none last c s t k h =
      let x : Place = record { last = last; taken = []; rest = c ∷ s } in
      let y : Place = record { last = last; taken = []; rest = c ∷ t } in
      go (ends u.is_word (pan u) y) (ends u.is_word (pan u) x)
        (pan-Followed u brackets capitals decimals last c s t k)
        (nothing_taken (ends u.is_word (pan u) x) h)
    where
      go : (ys xs : List Place) → Followed u ys xs → xs ≡ [] → first_taken ys ≡ none
      go [] xs f e = refl
      go (y ∷ ys) [] f e = absurd f.0
      go (y ∷ ys) (x ∷ xs) f e = absurd (ground arith)

  pub not_capital :
      (last : Option ℕ) (c : ℕ) (s : Text)
      → (leb b'A' c && leb c b'Z') ≡ false
      → match_at u.is_word (pan u) last (c ∷ s) ≡ none
  unfolding match_at ends rounds
  not_capital last c s off =
      let x : Place = record { last = last; taken = []; rest = c ∷ s } in
      elim (Bool-cases (at_boundary u.is_word x)) [ inl e ↦ rw (e, off) refl | inr e ↦ rw e refl ]

  no_boundary :
      (last : Option ℕ) (c : ℕ) (s : Text)
      → at_boundary u.is_word (record { last = last; taken = []; rest = c ∷ s }) ≡ false
      → match_at u.is_word (pan u) last (c ∷ s) ≡ none
  unfolding match_at ends
  no_boundary last c s off = rw off refl

  -- A PAN begins with a capital letter after what is no word character.
  pub pan-begins :
      (last : Option ℕ) (c : ℕ) (s m : Text)
      → match_at u.is_word (pan u) last (c ∷ s) ≡ some m
      → (u.is_word c ≡ true) × (is_in u last ≡ false)
  pan-begins last c s m h = elim (Bool-cases (leb b'A' c && leb c b'Z')) [
    | inr off ↦ let no_match = not_capital last c s off in absurd (ground arith)
    | inl on ↦
        let word = capitals c on in
        elim (Bool-cases (is_in u last)) [
          | inr outside ↦ (word, outside)
          | inl inside ↦
              let no_match = no_boundary last c s (ap₂ differ inside word) in absurd (ground arith)
        ]
  ]

  -- After a PAN there is no word character.
  abbrev IsEnd : Place → Type 0
  IsEnd x = next_inside u.is_word x.rest ≡ false

  boundary-IsEnd : (x : Place) → is_in u x.last ≡ true → All IsEnd (ends u.is_word boundary x)
  unfolding ends
  boundary-IsEnd x inside = elim (Bool-cases (next_inside u.is_word x.rest)) [
    | inl e ↦ let off : at_boundary u.is_word x ≡ false = ap₂ differ inside e in rw off tt
    | inr e ↦ let on : at_boundary u.is_word x ≡ true = ap₂ differ inside e in rw on (e, tt)
  ]

  last-IsEnd :
      (x : Place)
      → All IsEnd (ends u.is_word (then_ (one (λ c. leb b'A' c && leb c b'Z')) boundary) x)
  unfolding ends
  last-IsEnd x = go x.rest
    where
      go :
          (s : Text)
          → All IsEnd (
              collect
                (ends u.is_word boundary)
                (take_one (λ c. leb b'A' c && leb c b'Z') x.taken s))
      go [] = tt
      go (c ∷ s) = elim (Bool-cases (leb b'A' c && leb c b'Z')) [
        | inr off ↦ rw off tt
        | inl on ↦
            let y : Place = record { last = some c; taken = x.taken ++ c ∷ []; rest = s } in
            rw on (
              All-append IsEnd (ends u.is_word boundary y) [] (boundary-IsEnd y (capitals c on)) tt)
      ]

  pan-IsEnd : (x : Place) → All IsEnd (ends u.is_word (pan u) x)
  unfolding ends
  pan-IsEnd x = collect-every IsEnd _ (ends u.is_word boundary x) (λ y.
      collect-every IsEnd _ (ends u.is_word (times 5 0 (one (λ c. leb b'A' c && leb c b'Z'))) y)
        (λ z. collect-every IsEnd _ (ends u.is_word (times 4 0 (one u.is_decimal)) z) last-IsEnd))

  pub pan-ends :
      (last : Option ℕ) (c : ℕ) (s m : Text)
      → match_at u.is_word (pan u) last (c ∷ s) ≡ some m
      → next_inside u.is_word (drop (length m - 1) s) ≡ false
  unfolding match_at
  pan-ends last c s m h =
      let x : Place = record { last = last; taken = []; rest = c ∷ s } in
      go (ends u.is_word (pan u) x) (pan-IsEnd x)
        (ends-more u.is_word (c ∷ s) u.is_decimal (pan u) 0 x (inr (inr (inl (λ d e. e))))
          (refl, omega arith))
        h
    where
      go :
          (xs : List Place)
          → All IsEnd xs
          → All (IsIn (c ∷ s) 1) xs
          → first_taken xs ≡ some m
          → next_inside u.is_word (drop (length m - 1) s) ≡ false
      go [] a b e = cc
      go (y ∷ ys) a b e =
          let same : y.taken ≡ m = ground arith in
          subst (λ z. next_inside u.is_word (drop (length z - 1) s) ≡ false) same
            (ap (next_inside u.is_word) (rest_after y.taken y.rest c s b.0.0 b.0.1) ∙ a.0)
