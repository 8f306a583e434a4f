-- ===== src/Tests/Redaction.antt =====
-- The redaction of small texts.
use callsense.Prelude.{
  ◌-◌, ◌&&◌, ◌||◌, none, arith, All, true, [], ◌∷◌, ◌≡◌, refl, ◌==◌, leb, codes,
}
use callsense.Models.Tables.{Text}
use callsense.Analysis.Regex.{match_at}
use callsense.Pipeline.Stages.Base.{tx_segments}
use callsense.Pipeline.Stages.Redact
use callsense.Routes.Calls.Clean.{tx_segments-Unmatched}
use callsense.Tests.Samples.{transcribed_db}
use callsense.Analysis.Redaction.{Classes, redact, redact_all, unique}
use callsense.Analysis.Redaction.Plain.{redact-eq}
use callsense.Analysis.Redaction.Left.{Unmatched, redact-Unmatched}
use callsense.Analysis.Redaction.Kinds.{redact-unmarked}

abbrev ascii_classes : Classes
ascii_classes = record {
  is_word = λ c. leb 48 c && leb c 57 || leb 65 c && leb c 90 || (c == 95) || leb 97 c && leb c 122;
  is_decimal = λ c. leb 48 c && leb c 57;
  decimal_value = λ c. c - 48;
  is_white = λ c. c == 32 || leb 9 c && leb c 13;
}

abbrev number_text : Text
number_text = codes "Mera number 9876543210 hai, OTP 445566, a.b@c.in, ABCDE1234F"

masked : redact ascii_classes number_text ≡ (
  codes "Mera number [PHONE] hai, OTP [OTP], [EMAIL], [PAN]",
  "EMAIL" ∷ "OTP" ∷ "PHONE" ∷ "PAN" ∷ [],
)
unfolding redact redact_all unique match_at
masked = refl

redact-eq_example : redact ascii_classes (codes "ok") ≡ (codes "ok", [])
redact-eq_example = redact-eq ascii_classes (codes "ok") ((refl, refl), ((refl, refl), tt))

redact-unmarked_example : (redact ascii_classes (codes "12")).0 ≡ codes "12"
unfolding redact redact_all unique match_at
redact-unmarked_example = redact-unmarked ascii_classes (codes "12") refl

redact-Unmatched_example : Unmatched ascii_classes none (redact ascii_classes number_text).0
redact-Unmatched_example =
    redact-Unmatched ascii_classes refl (λ c h. ground arith) (λ c h. ground arith) number_text

tx_segments-Unmatched_example :
    All
      (λ t. Unmatched ascii_classes none t.text)
      (tx_segments 1 true (Redact.run (λ kinds. kinds) (redact ascii_classes) 1 transcribed_db).1)
tx_segments-Unmatched_example =
    tx_segments-Unmatched ascii_classes (λ kinds. kinds) 1 transcribed_db refl (λ c h. ground arith)
      (λ c h. ground arith) (tt, tt)
