-- ===== src/Analysis/Redaction/Plain.antt =====
-- A text without digits and without `@` is left as it is.
use callsense.Prelude.{
  ℕ, Bool, true, false, String, List, [], ◌≡◌, refl, ap, inl, inr, ◌==◌, All, All-map,
}
use callsense.Models.Tables.{Text}
use callsense.Analysis.Regex.{Regex}
use callsense.Analysis.Regex.Needs.{Needs, Without, sub-eq}
use callsense.Analysis.Redaction.{
  Classes, email, card, aadhaar, otp, phone, pan, mark, card_sub, otp_sub, pass, unique, redact_all,
  redact,
}

module _ (u : Classes) where
  pass-eq :
      (p : ℕ → Bool) (r : Regex) (f : Text → Text × List String) (text : Text)
      → Needs p r
      → Without p text
      → pass u r f (text, []) ≡ (text, [])
  pass-eq p r f text needs h =
      ap (λ (x : Text × List String). (x.0, x.1)) (sub-eq u.is_word p r f needs text h)

  -- A text that has no decimal digit and no `@` comes out of the redaction as it went in, and no
  -- kind of personal data is reported for it.
  pub redact-eq :
      (text : Text)
      → All (λ c. ((c == b'@') ≡ false) × (u.is_decimal c ≡ false)) text
      → redact u text ≡ (text, [])
  unfolding redact redact_all unique
  redact-eq text h =
      let at = All-map _ (λ c. (c == b'@') ≡ false) text (λ c k. k.0) h in
      let digits = All-map _ (λ c. u.is_decimal c ≡ false) text (λ c k. k.1) h in
      let d = λ (c : ℕ) (e : u.is_decimal c ≡ true). e in
      rw
        (
          pass-eq (λ c. c == b'@') (email u) (mark "EMAIL") text (inr (inr (inl (λ c e. e)))) at,
          pass-eq u.is_decimal (card u) (card_sub u) text (inr (inl (inl d))) digits,
          pass-eq u.is_decimal (aadhaar u) (mark "AADHAAR") text (inr (inl d)) digits,
          pass-eq u.is_decimal (otp u) otp_sub text (inr (inr (inr (inr d)))) digits,
          pass-eq u.is_decimal (phone u) (mark "PHONE") text (inr (inr (inr (inl d)))) digits,
          pass-eq u.is_decimal (pan u) (mark "PAN") text (inr (inr (inl d))) digits,
        )
        refl
