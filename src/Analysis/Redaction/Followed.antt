-- ===== src/Analysis/Redaction/Followed.antt =====
-- What the pattern for PANs finds in a text that was masked it finds in the text before.
use mathlib.Core.Path.{subst, ap₂}
use callsense.Prelude.{
  ℕ, zero, suc, Bool, true, false, ◌&&◌, none, some, Option, List, [], ◌∷◌, ◌++◌, ◌≡◌, refl, ap,
  ◌⊎◌, inl, inr, arith, leb, All, All-map, All-append, Bool-cases,
}
use callsense.Models.Tables.{Text}
use callsense.Analysis.Regex.{
  Regex, one, boundary, then_, or_, times, many, Place, at_boundary, differ, is_inside, next_inside,
  take_one, collect, rounds, ends,
}
use callsense.Analysis.Redaction.{Classes, pan}

-- One of the elements has the property.
abbrev pub Some : (Place → Type 0) → List Place → Type 0
Some P [] = ⊥
Some P (x ∷ xs) = P x ⊎ Some P xs

Some-append_left : (P : Place → Type 0) (xs ys : List Place) → Some P xs → Some P (xs ++ ys)
Some-append_left P [] ys h = absurd h
Some-append_left P (x ∷ xs) ys (inl h) = inl h
Some-append_left P (x ∷ xs) ys (inr h) = inr (Some-append_left P xs ys h)

Some-append_right : (P : Place → Type 0) (xs ys : List Place) → Some P ys → Some P (xs ++ ys)
Some-append_right P [] ys h = h
Some-append_right P (x ∷ xs) ys h = inr (Some-append_right P xs ys h)

module _ (u : Classes) where
  abbrev pub is_in : Option ℕ → Bool
  is_in none = false
  is_in (some c) = u.is_word c

  -- A text and what became of it, after a character: the same up to the end or up to a place where
  -- a word that was masked begins, which in the other text is a bracket.
  abbrev pub Kept : Option ℕ → Text → Text → Type 0
  Kept last [] [] = Unit
  Kept last [] (d ∷ t) = ⊥
  Kept last (c ∷ s) [] = ⊥
  Kept last (c ∷ s) (d ∷ t) =
      ((c ≡ d) × Kept (some c) s t) ⊎ ((d ≡ b'[') × (u.is_word c ≡ true) × (is_in last ≡ false))

  -- A place in the one and a place in the other.
  abbrev pub Alike : Place → Place → Type 0
  Alike y x = (x.last ≡ y.last) × Kept y.last x.rest y.rest

  -- Patterns that take word characters only, and no bracket.
  abbrev Wordy : Regex → Type 0
  Wordy (one q) = (q b'[' ≡ false) × ((c : ℕ) → q c ≡ true → u.is_word c ≡ true)
  Wordy boundary = ⊥
  Wordy (then_ r s) = Wordy r × Wordy s
  Wordy (or_ r s) = ⊥
  Wordy (times n zero r) = Wordy r
  Wordy (times n (suc k) r) = ⊥
  Wordy (many r) = ⊥

  -- Each way to match in what became of a text is one in the text.
  abbrev pub Followed : List Place → List Place → Type 0
  Followed ys xs = All (λ y. Some (Alike y) xs) ys

  spread :
      (f : Place → List Place) (y : Place) (xs : List Place)
      → ((x : Place) → Alike y x → Followed (f y) (f x))
      → Some (Alike y) xs
      → Followed (f y) (collect f xs)
  spread f y [] g h = absurd h
  spread f y (x ∷ xs) g (inl h) =
      All-map (λ z. Some (Alike z) (f x)) (λ z. Some (Alike z) (f x ++ collect f xs)) (f y)
        (λ z. Some-append_left (Alike z) (f x) (collect f xs)) (g x h)
  spread f y (x ∷ xs) g (inr h) =
      All-map (λ z. Some (Alike z) (collect f xs)) (λ z. Some (Alike z) (f x ++ collect f xs)) (f y)
        (λ z. Some-append_right (Alike z) (f x) (collect f xs)) (spread f y xs g h)

  collect-Followed :
      (f : Place → List Place) (ys xs : List Place)
      → ((y x : Place) → Alike y x → Followed (f y) (f x))
      → Followed ys xs
      → Followed (collect f ys) (collect f xs)
  collect-Followed f [] xs g h = tt
  collect-Followed f (y ∷ ys) xs g h =
      All-append (λ z. Some (Alike z) (collect f xs)) (f y) (collect f ys) (spread f y xs (g y) h.0)
        (collect-Followed f ys xs g h.1)

  take_one-Followed :
      (q : ℕ → Bool) (last : Option ℕ) (mine yours s t : Text)
      → q b'[' ≡ false
      → Kept last s t
      → Followed (take_one q mine t) (take_one q yours s)
  take_one-Followed q last mine yours [] [] off h = tt
  take_one-Followed q last mine yours [] (d ∷ t) off h = absurd h
  take_one-Followed q last mine yours (c ∷ s) [] off h = tt
  take_one-Followed q last mine yours (c ∷ s) (d ∷ t) off (inl (same, h)) =
      elim (Bool-cases (q d)) [
        | inl e ↦ rw (same, e) (inl (refl, subst (λ x. Kept (some x) s t) same h), tt)
        | inr e ↦ rw e tt
      ]
  take_one-Followed q last mine yours (c ∷ s) (d ∷ t) off (inr (bracket, _, _)) =
      rw (bracket, off) tt

  rounds-Followed :
      (f : Place → List Place) (n : ℕ) (y x : Place)
      → ((z w : Place) → Alike z w → Followed (f z) (f w))
      → Alike y x
      → Followed (rounds f n 0 y) (rounds f n 0 x)
  unfolding rounds
  rounds-Followed f zero y x g h = (inl h, tt)
  rounds-Followed f (suc n) y x g h =
      collect-Followed (rounds f n 0) (f y) (f x) (λ z w k. rounds-Followed f n z w g k) (g y x h)

  next-eq :
      (last : Option ℕ) (s t : Text)
      → is_in last ≡ true
      → Kept last s t
      → next_inside u.is_word s ≡ next_inside u.is_word t
  next-eq last [] [] inside h = refl
  next-eq last [] (d ∷ t) inside h = absurd h
  next-eq last (c ∷ s) [] inside h = absurd h
  next-eq last (c ∷ s) (d ∷ t) inside (inl (same, _)) = ap u.is_word same
  next-eq last (c ∷ s) (d ∷ t) inside (inr (_, _, outside)) = absurd (ground arith)

  same_boundary :
      (y x : Place)
      → Alike y x
      → at_boundary u.is_word x ≡ at_boundary u.is_word y
      → Followed (ends u.is_word boundary y) (ends u.is_word boundary x)
  unfolding ends
  same_boundary y x h same = elim (Bool-cases (at_boundary u.is_word y)) [
    | inl e ↦ rw (same, e) (inl h, tt)
    | inr e ↦ rw (same, e) tt
  ]

  -- A boundary after a word character.
  boundary-Followed :
      (y x : Place)
      → is_in y.last ≡ true
      → Alike y x
      → Followed (ends u.is_word boundary y) (ends u.is_word boundary x)
  boundary-Followed y x inside h = same_boundary y x h (
      ap₂ (λ (l : Option ℕ) (b : Bool). differ (is_inside u.is_word l) b) h.0
        (next-eq y.last x.rest y.rest inside h.1))

  -- The last character of a pattern, and the boundary after it.
  last-Followed :
      (q : ℕ → Bool) (y x : Place)
      → Wordy (one q)
      → Alike y x
      → Followed
          (ends u.is_word (then_ (one q) boundary) y)
          (ends u.is_word (then_ (one q) boundary) x)
  unfolding ends
  last-Followed q y x w (same, k) = go x.rest y.rest k
    where
      go :
          (s t : Text)
          → Kept y.last s t
          → Followed
              (collect (ends u.is_word boundary) (take_one q y.taken t))
              (collect (ends u.is_word boundary) (take_one q x.taken s))
      go [] [] h = tt
      go [] (d ∷ t) h = absurd h
      go (c ∷ s) [] h = tt
      go (c ∷ s) (d ∷ t) (inr (bracket, _, _)) = rw (bracket, w.0) tt
      go (c ∷ s) (d ∷ t) (inl (e, h)) = elim (Bool-cases (q d)) [
        | inr off ↦ rw off tt
        | inl on ↦
            let f = ends u.is_word boundary in
            let z : Place = record { last = some d; taken = y.taken ++ d ∷ []; rest = t } in
            let v : Place = record { last = some d; taken = x.taken ++ d ∷ []; rest = s } in
            let alike : Alike z v = (refl, subst (λ n. Kept (some n) s t) e h) in
            rw (e, on)
              (All-append (λ p. Some (Alike p) (collect f (v ∷ []))) (f z) []
                (spread f z (v ∷ []) (λ p. boundary-Followed z p (w.1 d on)) (inl alike)) tt)
      ]

  abbrev pub is_capital : ℕ → Bool
  is_capital c = leb b'A' c && leb c b'Z'

  -- A PAN, after its first boundary.
  abbrev pub pan_word : Regex
  pan_word =
      then_ (times 5 0 (one is_capital))
        (then_ (times 4 0 (one u.is_decimal)) (then_ (one is_capital) boundary))

  module _ (brackets : u.is_decimal b'[' ≡ false)
      (capitals : (c : ℕ) → (leb b'A' c && leb c b'Z') ≡ true → u.is_word c ≡ true)
      (decimals : (c : ℕ) → u.is_decimal c ≡ true → u.is_word c ≡ true) where
    word-Followed :
        (y x : Place) → Alike y x → Followed (ends u.is_word pan_word y) (ends u.is_word pan_word x)
    unfolding ends
    word-Followed y x h =
        let caps = λ (z v : Place) (k : Alike z v).
          take_one-Followed is_capital z.last z.taken v.taken v.rest z.rest refl k.1 in
        let digits = λ (z v : Place) (k : Alike z v).
          take_one-Followed u.is_decimal z.last z.taken v.taken v.rest z.rest brackets k.1 in
        collect-Followed _ (rounds (ends u.is_word (one is_capital)) 5 0 y)
          (rounds (ends u.is_word (one is_capital)) 5 0 x)
          (λ z v k.
            collect-Followed _ (rounds (ends u.is_word (one u.is_decimal)) 4 0 z)
              (rounds (ends u.is_word (one u.is_decimal)) 4 0 v)
              (λ a b. last-Followed is_capital a b (refl, capitals))
              (rounds-Followed (ends u.is_word (one u.is_decimal)) 4 z v digits k))
          (rounds-Followed (ends u.is_word (one is_capital)) 5 y x caps h)

    pub pan-Followed :
        (last : Option ℕ) (c : ℕ) (s t : Text)
        → Kept (some c) s t
        → Followed
            (ends u.is_word (pan u) (record { last = last; taken = []; rest = c ∷ t }))
            (ends u.is_word (pan u) (record { last = last; taken = []; rest = c ∷ s }))
    unfolding ends
    pan-Followed last c s t h =
        let y : Place = record { last = last; taken = []; rest = c ∷ t } in
        let x : Place = record { last = last; taken = []; rest = c ∷ s } in
        collect-Followed (ends u.is_word pan_word) (ends u.is_word boundary y)
          (ends u.is_word boundary x) word-Followed (same_boundary y x (refl, inl (refl, h)) refl)
