-- ===== src/Analysis/Redaction/Kinds.antt =====
-- The kinds that the redaction reports.
use callsense.Prelude.{
  ℕ, Bool, true, String, List, [], ◌∷◌, ◌≡◌, refl, ◌∙◌, inl, inr, arith, ◌==◌, Bool-cases,
}
use callsense.Models.Tables.{Text}
use callsense.Analysis.Luhn.{luhn_ok}
use callsense.Analysis.Regex.{Regex, sub}
use callsense.Analysis.Regex.Needs.{Needs}
use callsense.Analysis.Regex.Sound.{sub-unmarked, append_nil_cases}
use callsense.Analysis.Redaction.{
  Classes, email, card, aadhaar, otp, phone, pan, mark, card_sub, otp_sub, pass, unique, redact_all,
  redact,
}

module _ (u : Classes) where
  -- If a pass and those before it noted nothing, the text is the one before the pass.
  pass-unmarked :
      (p : ℕ → Bool) (r : Regex) (f : Text → Text × List String) (before : Text × List String)
      → Needs p r
      → ((m : Text) → (f m).1 ≡ [] → (f m).0 ≡ m)
      → (pass u r f before).1 ≡ []
      → (before.1 ≡ []) × ((pass u r f before).0 ≡ before.0)
  pass-unmarked p r f (text, found) needs same h =
      let (old, new) = append_nil_cases found (sub u.is_word r f text).1 h in
      (old, sub-unmarked u.is_word p r f needs same text new)

  mark-marks : (kind : String) (m : Text) → (mark kind m).1 ≡ [] → (mark kind m).0 ≡ m
  mark-marks kind m h = absurd (ground arith)

  otp_sub-marks : (m : Text) → (otp_sub m).1 ≡ [] → (otp_sub m).0 ≡ m
  otp_sub-marks m h = absurd (ground arith)

  card_sub-marks : (m : Text) → (card_sub u m).1 ≡ [] → (card_sub u m).0 ≡ m
  card_sub-marks m h = elim (Bool-cases (luhn_ok u.is_decimal u.decimal_value m)) [
    | inl e ↦ absurd (ground arith)
    | inr e ↦ rw e refl
  ]

  redact_all-unmarked : (text : Text) → (redact_all u text).1 ≡ [] → (redact_all u text).0 ≡ text
  unfolding redact_all
  redact_all-unmarked text h =
      let d = λ (c : ℕ) (e : u.is_decimal c ≡ true). e in
      let s1 = pass u (email u) (mark "EMAIL") (text, []) in
      let s2 = pass u (card u) (card_sub u) s1 in
      let s3 = pass u (aadhaar u) (mark "AADHAAR") s2 in
      let s4 = pass u (otp u) otp_sub s3 in
      let s5 = pass u (phone u) (mark "PHONE") s4 in
      let (h5, e6) =
        pass-unmarked u.is_decimal (pan u) (mark "PAN") s5 (inr (inr (inl d))) (mark-marks "PAN")
          h in
      let (h4, e5) =
        pass-unmarked u.is_decimal (phone u) (mark "PHONE") s4 (inr (inr (inr (inl d))))
          (mark-marks "PHONE") h5 in
      let (h3, e4) =
        pass-unmarked u.is_decimal (otp u) otp_sub s3 (inr (inr (inr (inr d)))) otp_sub-marks h4 in
      let (h2, e3) =
        pass-unmarked u.is_decimal (aadhaar u) (mark "AADHAAR") s2 (inr (inl d))
          (mark-marks "AADHAAR") h3 in
      let (h1, e2) =
        pass-unmarked u.is_decimal (card u) (card_sub u) s1 (inr (inl (inl d))) card_sub-marks h2 in
      let (_, e1) =
        pass-unmarked (λ c. c == b'@') (email u) (mark "EMAIL") (text, [])
          (inr (inr (inl (λ c e. e)))) (mark-marks "EMAIL") h1 in
      e6 ∙ e5 ∙ e4 ∙ e3 ∙ e2 ∙ e1

  unique-nil : (found : List String) → unique found ≡ [] → found ≡ []
  unfolding unique
  unique-nil [] h = refl
  unique-nil (k ∷ found) h = absurd (ground arith)

  -- If the redaction of a text reports no kind of personal data, the text is as it was.
  pub redact-unmarked : (text : Text) → (redact u text).1 ≡ [] → (redact u text).0 ≡ text
  unfolding redact
  redact-unmarked text h = redact_all-unmarked text (unique-nil (redact_all u text).1 h)
