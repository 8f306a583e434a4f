-- ===== src/Analysis/Redaction/Left.antt =====
-- After the pass for PANs no PAN is left in the text.
use mathlib.Core.Path.{subst}
use callsense.Prelude.{
  ℕ, zero, suc, ◌-◌, true, false, ◌&&◌, none, some, Option, [], ◌∷◌, ◌≡◌, refl, sym, ap, inl, inr,
  arith, leb, Bool-cases, Option-cases, length, drop,
}
use callsense.Models.Tables.{Text}
use callsense.Analysis.Regex.{
  Place, at_boundary, next_inside, rounds, ends, match_at, replaced, sub_from, sub,
}
use callsense.Analysis.Redaction.{Classes, pan, mark, redact_all, redact}
use callsense.Analysis.Redaction.Word.{pan-none, not_capital, pan-begins, pan-ends}
use callsense.Analysis.Redaction.Followed.{Kept, pan_word}

module _ (u : Classes) where
  -- No PAN in a text after a character.
  abbrev pub Unmatched : Option ℕ → Text → Type 0
  Unmatched last [] = Unit
  Unmatched last (c ∷ s) = (match_at u.is_word (pan u) last (c ∷ s) ≡ none) × Unmatched (some c) s

module _ (u : Classes) (brackets : u.is_decimal b'[' ≡ false)
    (capitals : (c : ℕ) → (leb b'A' c && leb c b'Z') ≡ true → u.is_word c ≡ true)
    (decimals : (c : ℕ) → u.is_decimal c ≡ true → u.is_word c ≡ true) where
  abbrev masked : ℕ → Option ℕ → Text → Text
  masked skip last s = (sub_from u.is_word (pan u) (mark "PAN") skip last s).0

  masked-none :
      (last : Option ℕ) (c : ℕ) (s : Text)
      → match_at u.is_word (pan u) last (c ∷ s) ≡ none
      → masked 0 last (c ∷ s) ≡ c ∷ masked 0 (some c) s
  unfolding sub_from
  masked-none last c s e =
      ap
        (λ found.
          (replaced u.is_word (pan u) (mark "PAN") found c
            (λ skip. sub_from u.is_word (pan u) (mark "PAN") skip (some c) s)).0)
        e

  masked-some :
      (last : Option ℕ) (c : ℕ) (s m : Text)
      → match_at u.is_word (pan u) last (c ∷ s) ≡ some m
      → masked 0 last (c ∷ s) ≡ b'[' ∷ b'P' ∷ b'A' ∷ b'N' ∷ b']' ∷ masked (length m - 1) (some c) s
  unfolding sub_from
  masked-some last c s m e =
      ap
        (λ found.
          (replaced u.is_word (pan u) (mark "PAN") found c
            (λ skip. sub_from u.is_word (pan u) (mark "PAN") skip (some c) s)).0)
        e

  -- A text and what the pass makes of it.
  masked-Kept : (last : Option ℕ) (s : Text) → Kept u last s (masked 0 last s)
  masked-Kept last [] = unfold sub_from in tt
  masked-Kept last (c ∷ s) = elim (Option-cases (match_at u.is_word (pan u) last (c ∷ s))) [
    | inl e ↦
        subst (Kept u last (c ∷ s)) (sym (masked-none last c s e))
          (inl (refl, masked-Kept (some c) s))
    | inr (m, e) ↦
        let (word, outside) = pan-begins u brackets capitals decimals last c s m e in
        subst (Kept u last (c ∷ s)) (sym (masked-some last c s m e)) (inr (refl, word, outside))
  ]

  word_nil :
      (last : Option ℕ) (c : ℕ) (s : Text)
      → ends u.is_word (pan_word u) (record { last = last; taken = []; rest = c ∷ s }) ≡ []
      → match_at u.is_word (pan u) last (c ∷ s) ≡ none
  unfolding match_at ends
  word_nil last c s e =
      let x : Place = record { last = last; taken = []; rest = c ∷ s } in
      elim (Bool-cases (at_boundary u.is_word x)) [
        | inl on ↦ rw (on, e) refl
        | inr off ↦ rw off refl
      ]

  -- Nothing in the bracket is a PAN.
  bracket-Unmatched :
      (last : Option ℕ) (t : Text)
      → Unmatched u (some b']') t
      → Unmatched u last (b'[' ∷ b'P' ∷ b'A' ∷ b'N' ∷ b']' ∷ t)
  unfolding ends rounds
  bracket-Unmatched last t h = (
    not_capital u brackets capitals decimals last b'[' (b'P' ∷ b'A' ∷ b'N' ∷ b']' ∷ t) refl,
    (
      word_nil (some b'[') b'P' (b'A' ∷ b'N' ∷ b']' ∷ t) refl,
      (
        word_nil (some b'P') b'A' (b'N' ∷ b']' ∷ t) refl,
        (
          word_nil (some b'A') b'N' (b']' ∷ t) refl,
          (not_capital u brackets capitals decimals (some b'N') b']' t refl, h),
        ),
      ),
    ),
  )

  -- From a place on, and from a place in a PAN that is being masked.
  masked-Unmatched :
      (s : Text)
      → ((last : Option ℕ) → Unmatched u last (masked 0 last s))
        × ((skip : ℕ) (last : Option ℕ)
            → next_inside u.is_word (drop skip s) ≡ false
            → Unmatched u (some b']') (masked skip last s))
  unfolding sub_from
  masked-Unmatched [] = (
    λ last. tt,
    λ skip last h. elim skip as (λ k. Unmatched u (some b']') (masked k last [])) [
      | zero ↦ tt
      | suc k ↦ tt
    ],
  )
  masked-Unmatched (c ∷ s) =
      let (from, inside) = masked-Unmatched s in
      (
        λ last. elim (Option-cases (match_at u.is_word (pan u) last (c ∷ s))) [
          | inl e ↦ subst (Unmatched u last) (sym (masked-none last c s e)) (
            pan-none u brackets capitals decimals last c s (masked 0 (some c) s)
                (masked-Kept (some c) s) e,
            from (some c),
          )
          | inr (m, e) ↦ subst (Unmatched u last) (sym (masked-some last c s m e)) (
              bracket-Unmatched last (masked (length m - 1) (some c) s) (
                inside (length m - 1) (some c)
                  (pan-ends u brackets capitals decimals last c s m e)))
        ],
        skipped from inside,
      )
    where
      skipped :
          ((last : Option ℕ) → Unmatched u last (masked 0 last s))
          → ((skip : ℕ) (last : Option ℕ)
              → next_inside u.is_word (drop skip s) ≡ false
              → Unmatched u (some b']') (masked skip last s))
          → (skip : ℕ) (last : Option ℕ) → next_inside u.is_word (drop skip (c ∷ s)) ≡ false
          → Unmatched u (some b']') (masked skip last (c ∷ s))
      skipped from inside (suc k) last h = inside k (some c) h
      skipped from inside zero last h = elim (Bool-cases (leb b'A' c && leb c b'Z')) [
        | inl on ↦ let word = capitals c on in absurd (ground arith)
        | inr off ↦
            subst (Unmatched u (some b']'))
              (sym (masked-none last c s (not_capital u brackets capitals decimals last c s off)))
              (
                not_capital u brackets capitals decimals (some b']') c (masked 0 (some c) s) off,
                from (some c),
              )
      ]

  -- Let capital letters and decimal digits be word characters and no bracket a digit. No PAN is
  -- left in a text that comes out of the redaction: the pattern for PANs matches nowhere in it.
  pub redact-Unmatched : (text : Text) → Unmatched u none (redact u text).0
  unfolding redact redact_all sub
  redact-Unmatched text = (masked-Unmatched _).0 none
