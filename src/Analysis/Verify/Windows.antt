-- ===== src/Analysis/Verify/Windows.antt =====
-- The search of the quote gate: what it compares, and that it keeps the best.
use mathlib.Core.Path.{subst}
use callsense.Prelude.{
  Any, ℕ, zero, suc, ◌+◌, ◌-◌, ◌≤◌, ◌<◌, some, List, [], ◌∷◌, ◌≡◌, refl, sym, ap, ◌∙◌, ◌⊎◌, inl,
  inr, arith, ltb, leb, length, take, drop, Bool-cases, leb→le, le→leb,
}
use callsense.Double.{Double}
use callsense.Models.Tables.{Text}
use callsense.Transcription.Base.{TxSegment}
use callsense.Analysis.Difflib.{ratio}
use callsense.Analysis.Verify.{
  Unicode, Best, improve, slide, visit_words, best_segment, normalise, split, join,
}

-- What a quote of `window` words is compared with: a segment that is not longer as a whole, of a
-- longer one each run of `window` words.
abbrev pub IsCandidate : ℕ → List Text → Text → Type 0
IsCandidate window swords c =
    (length swords ≤ window × (c ≡ join swords))
    ⊎ ((i : ℕ) × (i + window ≤ length swords) × (c ≡ join (take window (drop i swords))))

drop-suc : {A : Type 0} (i : ℕ) (xs : List A) → drop 1 (drop i xs) ≡ drop (suc i) xs
drop-suc zero xs = refl
drop-suc (suc i) [] = refl
drop-suc (suc i) (x ∷ xs) = drop-suc i xs

take_all : {A : Type 0} (n : ℕ) (xs : List A) → length xs ≤ n → take n xs ≡ xs
take_all zero [] h = refl
take_all zero (x ∷ xs) h = absurd (omega arith)
take_all (suc n) [] h = refl
take_all (suc n) (x ∷ xs) h = ap (λ ys. x ∷ ys) (take_all n xs (omega arith))

module _ (u : Unicode) (q : Text) where
  improve-covers :
      (seg : TxSegment) (c : Text) (best : Best)
      → (best.0 ≤ (improve u q seg c best).0) × (ratio q c ≤ (improve u q seg c best).0)
  unfolding improve
  improve-covers seg c best = ground arith

  -- What each comparison of a slide keeps, the slide keeps.
  slide-ind :
      (P : Best → Type 0) (window : ℕ) (seg : TxSegment) (swords : List Text)
      → ((i : ℕ) (best : Best)
          → i + window ≤ length swords
          → P best
          → P (improve u q seg (join (take window (drop i swords))) best))
      → (left i : ℕ) (best : Best) → left + i + window ≤ length swords + 1
      → P best
      → P (slide u q window seg left (drop i swords) best)
  unfolding slide
  slide-ind P window seg swords step zero i best fits h = h
  slide-ind P window seg swords step (suc left) i best fits h = rw (drop-suc i swords) (
      slide-ind P window seg swords step left (suc i)
        (improve u q seg (join (take window (drop i swords))) best) (omega arith)
        (step i best (omega arith) h))

  slide-covers :
      (window : ℕ) (seg : TxSegment) (swords : List Text) (left i j : ℕ) (best : Best)
      → left + i + window ≤ length swords + 1
      → i ≤ j
      → j < left + i
      → ratio q (join (take window (drop j swords)))
        ≤ (slide u q window seg left (drop i swords) best).0
  unfolding slide
  slide-covers window seg swords zero i j best fits le lt = absurd (omega arith)
  slide-covers window seg swords (suc left) i j best fits le lt =
      let here = improve u q seg (join (take window (drop i swords))) best in
      let better = improve-covers seg (join (take window (drop i swords))) best in
      let grows =
        slide-ind (λ b. here.0 ≤ b.0) window seg swords
          (λ k b _ h.
            let m = (improve-covers seg (join (take window (drop k swords))) b).0 in omega arith)
          left (suc i) here (omega arith) (omega arith) in
      let reached : ℕ → Type 0 = λ k.
        ratio q (join (take window (drop k swords)))
        ≤ (slide u q window seg left (drop (suc i) swords) here).0 in
      let now : reached i = omega (arith, better.1, grows) in
      let all : reached j = elim (Bool-cases (leb j i)) [
        | inl e ↦ let same : i ≡ j = ground arith in subst reached same now
        | inr e ↦
            slide-covers window seg swords left (suc i) j here (omega arith) (ground arith)
              (omega arith)
      ] in
      subst
        (λ x. ratio q (join (take window (drop j swords))) ≤ (slide u q window seg left x here).0)
        (sym (drop-suc i swords)) all

  -- The comparisons of one segment.
  visit-ind :
      (P : Best → Type 0) (qwords : List Text) (seg : TxSegment) (w : Text) (words : List Text)
      → ((c : Text) (best : Best)
          → IsCandidate (length qwords) (w ∷ words) c
          → P best
          → P (improve u q seg c best))
      → (best : Best) → P best
      → P (visit_words u q qwords seg (w ∷ words) best)
  unfolding visit_words
  visit-ind P qwords seg w words step best h =
      elim (Bool-cases (leb (length (w ∷ words)) (length qwords))) [
        | inl e ↦ rw e (
            step (join (w ∷ words)) best (inl (leb→le (length (w ∷ words)) (length qwords) e, refl))
              h)
        | inr e ↦ rw e (
            slide-ind P (length qwords) seg (w ∷ words)
              (λ i b fits k.
                step (join (take (length qwords) (drop i (w ∷ words)))) b (inr (i, fits, refl)) k)
              (length (w ∷ words) - length qwords + 1) 0 best (ground arith) h)
      ]

  visit-covers :
      (qwords : List Text) (seg : TxSegment) (w : Text) (words : List Text) (best : Best) (c : Text)
      → IsCandidate (length qwords) (w ∷ words) c
      → ratio q c ≤ (visit_words u q qwords seg (w ∷ words) best).0
  unfolding visit_words
  visit-covers qwords seg w words best c (inl (le, e)) =
      rw (e, le→leb (length (w ∷ words)) (length qwords) le)
        ((improve-covers seg (join (w ∷ words)) best).1)
  visit-covers qwords seg w words best c (inr (i, fits, e)) =
      elim (Bool-cases (leb (length (w ∷ words)) (length qwords))) [
        | inl t ↦
            let first : i ≡ 0 = ground arith in
            let whole : take (length qwords) (w ∷ words) ≡ w ∷ words =
              take_all (length qwords) (w ∷ words)
                (leb→le (length (w ∷ words)) (length qwords) t) in
            let c_whole : c ≡ join (w ∷ words) =
              e
              ∙ ap (λ k. join (take (length qwords) (drop k (w ∷ words)))) first
              ∙ ap join whole in
            rw (c_whole, t) ((improve-covers seg (join (w ∷ words)) best).1)
        | inr t ↦
            rw (e, t)
              (slide-covers (length qwords) seg (w ∷ words) (length (w ∷ words) - length qwords + 1)
                0 i best (ground arith) (omega arith) (ground arith))
      ]

  any_words :
      (qwords : List Text) (seg : TxSegment) (swords : List Text) (best : Best) (c : Text)
      → 0 < length swords
      → IsCandidate (length qwords) swords c
      → ratio q c ≤ (visit_words u q qwords seg swords best).0
  any_words qwords seg [] best c h cand = absurd (omega arith)
  any_words qwords seg (w ∷ words) best c h cand = visit-covers qwords seg w words best c cand

  -- Some comparison of the segment's words, of which there are some, with the quote gives this ratio.
  abbrev pub Compared : List Text → TxSegment → Double → Type 0
  Compared qwords seg r =
      (0 < length (split u (normalise u seg.text)))
      × (c : Text) × IsCandidate (length qwords) (split u (normalise u seg.text)) c
      × (r ≡ ratio q c)

  abbrev pub Hit : List Text → Best → TxSegment → Type 0
  Hit qwords best seg = (best.1 ≡ some seg) × Compared qwords seg best.0

  visit_sound :
      (qwords : List Text) (seg : TxSegment) (best : Best)
      → let after = visit_words u q qwords seg (split u (normalise u seg.text)) best in
        (after ≡ best) ⊎ Hit qwords after seg
  unfolding visit_words improve
  visit_sound qwords seg best = go (split u (normalise u seg.text)) refl
    where
      go :
          (swords : List Text)
          → swords ≡ split u (normalise u seg.text)
          → let after = visit_words u q qwords seg swords best in
            (after ≡ best) ⊎ Hit qwords after seg
      go [] e = inl refl
      go (w ∷ words) e =
          visit-ind (λ b. (b ≡ best) ⊎ Hit qwords b seg) qwords seg w words
            (λ c b cand h. elim (Bool-cases (ltb b.0 (ratio q c))) [
              | inl lt ↦ rw lt (
                  inr (
                    refl,
                    (
                      subst (λ x. 0 < length x) e (omega arith),
                      c,
                      subst (λ x. IsCandidate (length qwords) x c) e cand,
                      refl,
                    ),
                  ))
              | inr ge ↦ rw ge h
            ])
            best (inl refl)

  pub best_sound :
      (qwords : List Text) (segments : List TxSegment) (best : Best)
      → let after = best_segment u q qwords segments best in
        (after ≡ best) ⊎ Any (Hit qwords after) segments
  unfolding best_segment
  best_sound qwords [] best = inl refl
  best_sound qwords (seg ∷ segments) best =
      let here = visit_words u q qwords seg (split u (normalise u seg.text)) best in
      elim (best_sound qwords segments here) [
        | inl same ↦ elim (visit_sound qwords seg best) [
          | inl old ↦ inl (same ∙ old)
          | inr hit ↦ inr (inl (subst (λ b. Hit qwords b seg) (sym same) hit))
        ]
        | inr later ↦ inr (inr later)
      ]

  visit-grows :
      (qwords : List Text) (seg : TxSegment) (swords : List Text) (best : Best)
      → best.0 ≤ (visit_words u q qwords seg swords best).0
  unfolding visit_words
  visit-grows qwords seg [] best = omega arith
  visit-grows qwords seg (w ∷ words) best =
      visit-ind (λ b. best.0 ≤ b.0) qwords seg w words
        (λ c b _ h. let m = (improve-covers seg c b).0 in omega arith) best (omega arith)

  best-grows :
      (qwords : List Text) (segments : List TxSegment) (best : Best)
      → best.0 ≤ (best_segment u q qwords segments best).0
  unfolding best_segment
  best-grows qwords [] best = omega arith
  best-grows qwords (seg ∷ segments) best =
      let swords = split u (normalise u seg.text) in
      let here = visit_words u q qwords seg swords best in
      omega (arith, visit-grows qwords seg swords best, best-grows qwords segments here)

  pub best-covers :
      (qwords : List Text) (segments : List TxSegment) (best : Best) (t : Double)
      → Any (λ seg. (r : Double) × (t ≤ r) × Compared qwords seg r) segments
      → t ≤ (best_segment u q qwords segments best).0
  unfolding best_segment
  best-covers qwords [] best t h = elim h [ ]
  best-covers qwords (seg ∷ segments) best t (inl (r, le, (some_words, c, cand, e))) =
      let swords = split u (normalise u seg.text) in
      let here = visit_words u q qwords seg swords best in
      let reached : ratio q c ≤ here.0 = any_words qwords seg swords best c some_words cand in
      omega (arith, best-grows qwords segments here)
  best-covers qwords (seg ∷ segments) best t (inr later) =
      best-covers qwords segments (visit_words u q qwords seg (split u (normalise u seg.text)) best)
        t later
