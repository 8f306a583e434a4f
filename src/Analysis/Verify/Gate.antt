-- ===== src/Analysis/Verify/Gate.antt =====
-- The quote gate against its rule: a quote passes when some run of words of a segment is close
-- enough to it.
use mathlib.Core.Path.{subst}
use callsense.Prelude.{
  Any, ◌≤◌, ◌<◌, true, none, some, List, [], ◌∷◌, ◌≡◌, refl, sym, ap, ◌∙◌, ◌↔◌, inl, inr, arith,
  leb, length, leb→le, le→leb,
}
use callsense.Double.{Double, decimal, div, round_double}
use callsense.Models.Tables.{Text}
use callsense.Transcription.Base.{TxSegment}
use callsense.Analysis.Difflib.{ratio}
use callsense.Analysis.Verify.{
  Unicode, Best, QuoteMatch, best_segment, verify_words, verify_quote, default_threshold, normalise,
  split, match_of,
}
use callsense.Analysis.Verify.Windows.{IsCandidate, Compared, Hit, best_sound, best-covers}

pub Any-map :
    {A : Type 0} (P Q : A → Type 0) → ((x : A) → P x → Q x) → (xs : List A) → Any P xs → Any Q xs
Any-map P Q f [] h = h
Any-map P Q f (x ∷ xs) (inl h) = inl (f x h)
Any-map P Q f (x ∷ xs) (inr h) = inr (Any-map P Q f xs h)

-- The segment has words, and some candidate of it has at least the threshold's ratio with the quote.
abbrev pub IsClose : Unicode → Text → Double → TxSegment → Type 0
IsClose u quote threshold seg =
    (0 < length (split u (normalise u seg.text)))
    × (c : Text) × IsCandidate (length (split u (normalise u quote)))
        (split u (normalise u seg.text)) c
    × (threshold ≤ ratio (normalise u quote) c)

abbrev pub IsAt : QuoteMatch → TxSegment → Type 0
IsAt m seg =
    (m.segment_idx ≡ some seg.idx) × (m.start_s ≡ some seg.start_s) × (m.end_s ≡ some seg.end_s)

match_of-found :
    (u : Unicode) (threshold : Double) (best : Best)
    → (match_of u threshold best).found ≡ leb threshold best.0
match_of-found u threshold (r, none) = refl
match_of-found u threshold (r, some seg) = refl

match_of-IsAt :
    (u : Unicode) (threshold : Double) (best : Best) (seg : TxSegment)
    → best.1 ≡ some seg
    → IsAt (match_of u threshold best) seg
match_of-IsAt u threshold (r, none) seg e = absurd (cc)
match_of-IsAt u threshold (r, some s) seg e = (cc, cc, cc)

pub default_threshold_pos : 0 < default_threshold
unfolding default_threshold decimal div round_double
default_threshold_pos = omega arith

-- A quote that is found at a positive threshold stands where the match says: one of the segments has
-- the index and the times of the match, and is close to the quote.
pub verify_quote-located :
    (u : Unicode) (quote : Text) (segments : List TxSegment) (threshold : Double)
    → 0 < threshold
    → (verify_quote u quote segments threshold).found ≡ true
    → Any
        (λ seg. IsClose u quote threshold seg × IsAt (verify_quote u quote segments threshold) seg)
        segments
unfolding verify_quote
verify_quote-located u quote segments threshold pos found =
    go (split u (normalise u quote)) refl found
  where
    go :
        (qwords : List Text)
        → qwords ≡ split u (normalise u quote)
        → (verify_words u (normalise u quote) qwords segments threshold).found ≡ true
        → Any
            (λ seg.
              IsClose u quote threshold seg
              × IsAt (verify_words u (normalise u quote) qwords segments threshold) seg)
            segments
    go [] e h = absurd (cc)
    go (w ∷ words) e h =
        let best = best_segment u (normalise u quote) (w ∷ words) segments (0, none) in
        let enough : threshold ≤ best.0 =
          leb→le threshold best.0 (sym (match_of-found u threshold best) ∙ h) in
        elim (best_sound u (normalise u quote) (w ∷ words) segments (0, none)) [
          | inl nothing ↦
              let r : best.0 ≡ 0 = ap (λ (b : Best). b.0) nothing in absurd (omega arith)
          | inr hit ↦
              Any-map (Hit u (normalise u quote) (w ∷ words) best)
                (λ seg. IsClose u quote threshold seg × IsAt (match_of u threshold best) seg)
                (λ seg (at, (some_words, c, cand, r)). (
                  (
                    some_words,
                    c,
                    subst (λ x. IsCandidate (length x) (split u (normalise u seg.text)) c) e cand,
                    omega (arith, enough, r),
                  ),
                  match_of-IsAt u threshold best seg at,
                ))
                segments hit
        ]

found_words :
    (u : Unicode) (quote : Text) (segments : List TxSegment) (threshold : Double)
    (qwords : List Text)
    → (verify_words u (normalise u quote) qwords segments threshold).found ≡ true
    → 0 < length qwords
found_words u quote segments threshold [] h = absurd (cc)
found_words u quote segments threshold (w ∷ words) h = omega arith

accept_words :
    (u : Unicode) (quote : Text) (segments : List TxSegment) (threshold : Double)
    (qwords : List Text)
    → qwords ≡ split u (normalise u quote)
    → 0 < length qwords
    → Any (IsClose u quote threshold) segments
    → (verify_words u (normalise u quote) qwords segments threshold).found ≡ true
accept_words u quote segments threshold [] e n close = absurd (omega arith)
accept_words u quote segments threshold (w ∷ words) e n close =
    let q = normalise u quote in
    let best = best_segment u q (w ∷ words) segments (0, none) in
    let reached =
      best-covers u q (w ∷ words) segments (0, none) threshold
        (Any-map (IsClose u quote threshold)
          (λ seg. (r : Double) × (threshold ≤ r) × Compared u q (w ∷ words) seg r)
          (λ seg (some_words, c, cand, le). (
            ratio q c,
            le,
            (
              some_words,
              c,
              subst (λ x. IsCandidate (length x) (split u (normalise u seg.text)) c) (sym e) cand,
              refl,
            ),
          ))
          segments close) in
    match_of-found u threshold best ∙ le→leb threshold best.0 reached

-- At a positive threshold a quote is found exactly if it has words and some segment is close to it.
pub verify_quote_iff :
    (u : Unicode) (quote : Text) (segments : List TxSegment) (threshold : Double)
    → 0 < threshold
    → ((verify_quote u quote segments threshold).found ≡ true)
      ↔ ((0 < length (split u (normalise u quote))) × Any (IsClose u quote threshold) segments)
verify_quote_iff u quote segments threshold pos = (
  λ found. (
    some_words found,
    Any-map
        (λ seg. IsClose u quote threshold seg × IsAt (verify_quote u quote segments threshold) seg)
        (IsClose u quote threshold) (λ seg h. h.0) segments
        (verify_quote-located u quote segments threshold pos found),
  ),
  λ (n, close). accept n close,
)
  where
    some_words :
        (verify_quote u quote segments threshold).found ≡ true
        → 0 < length (split u (normalise u quote))
    some_words found =
        unfold verify_quote in
        found_words u quote segments threshold (split u (normalise u quote)) found

    accept :
        0 < length (split u (normalise u quote))
        → Any (IsClose u quote threshold) segments
        → (verify_quote u quote segments threshold).found ≡ true
    accept n close =
        unfold verify_quote in
        accept_words u quote segments threshold (split u (normalise u quote)) refl n close
