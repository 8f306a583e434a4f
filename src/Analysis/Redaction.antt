-- ===== src/Analysis/Redaction.antt =====
-- backend/analysis/redaction.py: personal data is masked before a text reaches a model.
pub mod Plain
pub mod Kinds
pub mod Followed
pub mod Word
pub mod Left
use callsense.Prelude.{
  ℕ, ◌-◌, Bool, true, false, not, ◌&&◌, ◌||◌, String, List, [], ◌∷◌, ◌++◌, ◌==◌, leb, if◌then◌else◌,
  codes, take, str_eq,
}
use callsense.Models.Tables.{Text}
use callsense.Analysis.Luhn.{luhn_ok}
use callsense.Analysis.Regex.{Regex, one, boundary, then_, or_, times, many, sub}

-- \w, \d and \s of a text.
pub record Classes : Type 0 where
  pub is_word : ℕ → Bool
  pub is_decimal : ℕ → Bool
  -- int() of a decimal digit
  pub decimal_value : ℕ → ℕ
  pub is_white : ℕ → Bool

abbrev literal : ℕ → Regex
literal c = one (λ d. d == c)

abbrev between : ℕ → ℕ → ℕ → Bool
between low high c = leb low c && leb c high

-- r+
abbrev some_of : Regex → Regex
some_of r = then_ r (many r)

abbrev optional : Regex → Regex
optional r = times 0 1 r

-- A letter in any case; to `s` Unicode adds the long s.
abbrev letter : ℕ → Regex
letter c = one (λ d. d == c || d == c - 32 || (c == b's' && d == 383))

abbrev letters : Text → Regex
letters [] = times 0 0 boundary
letters (c ∷ s) = then_ (letter c) (letters s)

module _ (u : Classes) where
  abbrev digit : Regex
  digit = one u.is_decimal

  abbrev is_local : ℕ → Bool
  is_local c = u.is_word c || c == b'.' || c == b'+' || c == b'-'

  abbrev is_label : ℕ → Bool
  is_label c = u.is_word c || c == b'-'

  abbrev is_domain : ℕ → Bool
  is_domain c = u.is_word c || c == b'.' || c == b'-'

  abbrev pub email : Regex
  email = then_ boundary (
      then_ (some_of (one is_local)) (
        then_ (literal b'@') (
          then_ (some_of (one is_label))
            (then_ (literal b'.') (then_ (some_of (one is_domain)) boundary)))))

  abbrev pub card : Regex
  card =
      then_ boundary
        (then_ (times 13 3 (then_ digit (optional (one (λ c. c == b' ' || c == b'-'))))) boundary)

  abbrev pub aadhaar : Regex
  aadhaar =
      let four = times 4 0 digit in
      let gap = optional (one u.is_white) in
      then_ boundary (then_ four (then_ gap (then_ four (then_ gap (then_ four boundary)))))

  abbrev pub otp : Regex
  otp = then_ boundary (
      then_
        (or_ (letters (codes "otp")) (or_ (letters (codes "code")) (letters (codes "password"))))
        (then_ boundary (then_ (times 0 8 (one (λ c. not (u.is_decimal c)))) (times 4 4 digit))))

  abbrev pub phone : Regex
  phone =
      then_
        (optional (
          then_ (literal b'+') (
            then_ (literal b'9')
              (then_ (literal b'1') (optional (one (λ c. u.is_white c || c == b'-')))))))
        (then_ boundary (then_ (one (between b'6' b'9')) (then_ (times 9 0 digit) boundary)))

  abbrev pub pan : Regex
  pan =
      let capital = one (between b'A' b'Z') in
      then_ boundary (then_ (times 5 0 capital) (then_ (times 4 0 digit) (then_ capital boundary)))

-- f"[{kind}]", and the kind is noted.
abbrev pub mark : String → Text → Text × List String
mark kind m = (b'[' ∷ (codes kind ++ b']' ∷ []), kind ∷ [])

abbrev pub card_sub : Classes → Text → Text × List String
card_sub u m = if luhn_ok u.is_decimal u.decimal_value m then mark "CARD" m else (m, [])

-- m.group(1): which of the three words the match begins with shows in its first letter.
abbrev otp_word : Text → Text
otp_word [] = []
otp_word (c ∷ m) =
    if c == b'o' || c == b'O'
    then take 3 (c ∷ m)
    else if c == b'c' || c == b'C'
    then take 4 (c ∷ m)
    else take 8 (c ∷ m)

abbrev pub otp_sub : Text → Text × List String
otp_sub m = let (out, noted) = mark "OTP" m in (otp_word m ++ b' ' ∷ out, noted)

-- list(dict.fromkeys(found)): each kind where it was found first.
abbrev drop_kind : String → List String → List String
drop_kind kind [] = []
drop_kind kind (k ∷ found) =
    let rest = drop_kind kind found in if str_eq k kind then rest else k ∷ rest

unfoldable pub unique : List String → List String
unique [] = []
unique (k ∷ found) = k ∷ drop_kind k (unique found)

-- One pattern after the other, on what the one before left.
module _ (u : Classes) where
  abbrev pub pass : Regex → (Text → Text × List String) → Text × List String → Text × List String
  pass r f (text, found) = let (out, noted) = sub u.is_word r f text in (out, found ++ noted)

  unfoldable pub redact_all : Text → Text × List String
  unfolding sub
  redact_all text = pass (pan u) (mark "PAN") (
      pass (phone u) (mark "PHONE") (
        pass (otp u) otp_sub (
          pass (aadhaar u) (mark "AADHAAR")
            (pass (card u) (card_sub u) (pass (email u) (mark "EMAIL") (text, []))))))

  unfoldable pub redact : Text → Text × List String
  unfolding redact_all unique
  redact text = let (out, found) = redact_all text in (out, unique found)
