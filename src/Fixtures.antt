-- ===== src/Fixtures.antt =====
-- backend/fixtures.py: the calls that MOCK_MODE plays.
pub mod Verbatim
use callsense.Prelude.{
  ℕ, Bool, true, false, String, Option, none, some, List, [], ◌∷◌, str_eq, if◌then◌else◌, codes,
}
use callsense.Double.{Double, decimal, from_int}
use callsense.Models.Taxonomy.{
  SpeakerRole, advisor, customer, RubricDimension, needs_discovery, product_knowledge,
  objection_handling, compliance_integrity, next_step_booking, FlagTag, over_promising,
  pressure_tactics, price_before_value, undisclosed_costs, pii_exposure,
}
use callsense.Models.Tables.{Text}
use callsense.Analysis.Schema.{DimensionScore, RawFlag, AnalysisResult}

-- (speaker, start_s, end_s, text)
pub record Line : Type 0 where
  pub speaker : SpeakerRole
  pub start_s : Double
  pub end_s : Double
  pub text : Text

pub record Fixture : Type 0 where
  pub language : String
  pub segments : List Line
  pub dimensions : List DimensionScore
  pub flags : List RawFlag
  pub non_sales : Bool

abbrev line : SpeakerRole → ℕ → ℕ → String → Line
line speaker start stop text = record {
  speaker = speaker;
  start_s = from_int start;
  end_s = from_int stop;
  text = codes text;
}

abbrev score : RubricDimension → ℕ → String → DimensionScore
score dimension points quote = record {
  dimension = dimension;
  score = points;
  evidence_quote = codes quote;
}

-- The confidence is a number of hundredths.
abbrev flag : FlagTag → String → String → ℕ → RawFlag
flag tag quote reason confidence = record {
  tag = tag;
  quote = codes quote;
  reason = codes reason;
  confidence = decimal confidence 2;
}

abbrev pub over_promiser : Fixture
over_promiser = record {
  language = "hi";
  segments =
      line advisor 0 5
        "Hello sir, FitNova se Arjun. Aap apni fitness journey ke liye kya goal rakhte hain?"
      ∷ line customer 5 9 "Mujhe weight kam karna hai, office ki wajah se time nahi milta."
      ∷ line advisor 9 15
          "Samajh gaya sir, busy schedule hai. Humara online personal training aapke liye perfect rahega."
      ∷ line customer 15 18 "Par results aayenge ya nahi, thoda doubt hai."
      ∷ line advisor 18 24
          "Sir tension mat lijiye, teen mahine mein weight loss 100% guaranteed hai, pakka result milega."
      ∷ line customer 24 27 "Achha, fees kitni hai?"
      ∷ line advisor 27 33
          "Fees pandrah hazaar teen mahine ka, EMI option bhi hai, main aapko poora plan bhej deta hoon."
      ∷ line customer 33 36 "Theek hai, trial session le sakta hoon?"
      ∷ line advisor 36 42
          "Bilkul sir, main aaj shaam ka free trial session book kar deta hoon, coach aapko call karega."
      ∷ line advisor 42 48
          "Payment ke liye aap apna card number aur OTP bata dijiye, main abhi enrollment kar deta hoon."
      ∷ line customer 48 53 "Mera number 9876543210 hai, aur OTP 445566 abhi aaya hai."
      ∷ [];
  dimensions =
      score needs_discovery 4 "Aap apni fitness journey ke liye kya goal rakhte hain?"
      ∷ score product_knowledge 4 "Fees pandrah hazaar teen mahine ka, EMI option bhi hai"
      ∷ score objection_handling 3 "Humara online personal training aapke liye perfect rahega"
      ∷ score compliance_integrity 1 "teen mahine mein weight loss 100% guaranteed hai"
      ∷ score next_step_booking 5 "free trial session book kar deta hoon"
      ∷ [];
  flags =
      flag over_promising "teen mahine mein weight loss 100% guaranteed hai"
        "Advisor guaranteed 100% weight-loss results in 3 months — a prohibited over-promise for a coaching program."
        96
      ∷ flag pii_exposure "aap apna card number aur OTP bata dijiye"
          "Advisor solicited card number and OTP on the call." 90
      ∷ [];
  non_sales = false;
}

abbrev pub good_discovery : Fixture
good_discovery = record {
  language = "hi";
  segments =
      line advisor 0 5
        "Hello ma'am, FitNova se Priya. Aap currently kaise fit rehti hain, koi routine hai?"
      ∷ line customer 5 9 "Bas kabhi kabhi walk karti hoon, proper routine nahi hai."
      ∷ line advisor 9 15
          "Samajh gayi. Aapka main goal weight loss hai, stamina, ya general fitness?"
      ∷ line customer 15 18 "General fitness aur thoda stamina."
      ∷ line advisor 18 25
          "Perfect, humare program mein personal coach, weekly diet plan aur live sessions milte hain."
      ∷ line customer 25 28 "Fees aur duration kitna hai?"
      ∷ line advisor 28 35
          "Fees barah hazaar, ya teen mahine ki EMI. Program chaar mahine ka hai, koi hidden charge nahi."
      ∷ line customer 35 38 "Results ki guarantee hai?"
      ∷ line advisor 38 45
          "Ma'am hum effort aur consistency pe results dete hain, guarantee nahi dete, par members ke achhe results rahe hain."
      ∷ line customer 45 48 "Theek hai, trial le sakti hoon?"
      ∷ line advisor 48 54
          "Bilkul, kal subah ka free trial session book kar deti hoon, confirmation bhej dungi."
      ∷ [];
  dimensions =
      score needs_discovery 5 "Aapka main goal weight loss hai, stamina, ya general fitness?"
      ∷ score product_knowledge 5 "personal coach, weekly diet plan aur live sessions milte hain"
      ∷ score objection_handling 4 "hum effort aur consistency pe results dete hain"
      ∷ score compliance_integrity 5 "guarantee nahi dete, par members ke achhe results rahe hain"
      ∷ score next_step_booking 5 "free trial session book kar deti hoon"
      ∷ [];
  flags = [];
  non_sales = false;
}

abbrev pub pushy_pressure : Fixture
pushy_pressure = record {
  language = "hi";
  segments =
      line advisor 0 4 "Haan hello, FitNova se Rohit. Aaj ek special fitness offer chal raha hai."
      ∷ line customer 4 7 "Kya offer hai?"
      ∷ line advisor 7 12 "Program pandrah hazaar ka hai, par aaj join karo toh dus hazaar mein."
      ∷ line customer 12 15 "Mujhe program ke baare mein kuch pata nahi abhi."
      ∷ line advisor 15 21
          "Sir jaldi decide kijiye, offer aaj raat khatam ho jayega, sirf paanch slots bache hain."
      ∷ line customer 21 24 "Main sochta hoon."
      ∷ line advisor 24 29
          "Sochne ka time nahi hai sir, abhi payment kar do warna kal se purana price."
      ∷ line customer 29 31 "Theek hai baad mein."
      ∷ [];
  dimensions =
      score needs_discovery 1 "Aaj ek special fitness offer chal raha hai"
      ∷ score product_knowledge 2 "Program pandrah hazaar ka hai"
      ∷ score objection_handling 1 "Sochne ka time nahi hai sir"
      ∷ score compliance_integrity 1 "offer aaj raat khatam ho jayega"
      ∷ score next_step_booking 1 "abhi payment kar do warna kal se purana price"
      ∷ [];
  flags =
      flag price_before_value "Program pandrah hazaar ka hai, par aaj join karo toh dus hazaar mein"
        "Price quoted before any needs discovery or value framing." 82
      ∷ flag pressure_tactics "offer aaj raat khatam ho jayega, sirf paanch slots bache hain"
          "False scarcity / artificial deadline to pressure the customer." 93
      ∷ flag pressure_tactics "abhi payment kar do warna kal se purana price"
          "Repeated hard close after a clear request for time." 90
      ∷ [];
  non_sales = false;
}

abbrev pub hidden_costs : Fixture
hidden_costs = record {
  language = "hi";
  segments =
      line advisor 0 5 "Hello ma'am, FitNova se Sneha. Aap fitness program join karna chahti hain?"
      ∷ line customer 5 8 "Haan, fees kitni hai?"
      ∷ line advisor 8 13 "Bas barah hazaar, aur kuch nahi, ekdum simple hai."
      ∷ line customer 13 16 "Koi aur charge toh nahi?"
      ∷ line advisor 16 22
          "Registration fee aur auto-renewal ke baare mein abhi mat sochiye, woh sab main dekh lungi."
      ∷ line customer 22 25 "Theek hai, trial de sakti hoon?"
      ∷ line advisor 25 30 "Haan kal subah ka trial book kar deti hoon."
      ∷ [];
  dimensions =
      score needs_discovery 3 "Aap fitness program join karna chahti hain?"
      ∷ score product_knowledge 3 "Bas barah hazaar, aur kuch nahi"
      ∷ score objection_handling 3 "woh sab main dekh lungi"
      ∷ score compliance_integrity 1
          "Registration fee aur auto-renewal ke baare mein abhi mat sochiye"
      ∷ score next_step_booking 4 "kal subah ka trial book kar deti hoon"
      ∷ [];
  flags =
      flag undisclosed_costs "Registration fee aur auto-renewal ke baare mein abhi mat sochiye"
        "Registration fee and auto-renewal waved away rather than disclosed." 86
      ∷ [];
  non_sales = false;
}

abbrev pub non_sales : Fixture
non_sales = record {
  language = "hi";
  segments =
      line advisor 0 3 "Hello, kya main Rahul ji se baat kar raha hoon?"
      ∷ line customer 3 6 "Nahi, aapne galat number lagaya hai."
      ∷ line advisor 6 8 "Oh sorry, galti se lag gaya. Dhanyavaad."
      ∷ [];
  dimensions = [];
  flags = [];
  non_sales = true;
}

abbrev pub fixtures : List (String × Fixture)
fixtures =
    ("over_promiser", over_promiser)
    ∷ ("good_discovery", good_discovery)
    ∷ ("pushy_pressure", pushy_pressure)
    ∷ ("hidden_costs", hidden_costs)
    ∷ ("non_sales", non_sales)
    ∷ []

-- FIXTURES.get(name, FIXTURES[DEFAULT_FIXTURE])
unfoldable pub fixture_in : String → List (String × Fixture) → Fixture
fixture_in name [] = over_promiser
fixture_in name ((key, f) ∷ table) =
    let rest = fixture_in name table in if str_eq key name then f else rest

-- `name or DEFAULT_FIXTURE`: the empty name is no key, so it gives the default too.
unfoldable pub get_fixture : Option String → Fixture
unfolding fixture_in
get_fixture none = over_promiser
get_fixture (some name) = if str_eq name "" then over_promiser else fixture_in name fixtures
