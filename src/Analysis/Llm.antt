-- ===== src/Analysis/Llm.antt =====
-- backend/analysis/llm.py: the clients of the language models, and the taking apart of answers.
-- The libraries of the two providers and the JSON parser are parameters; a time is a number of
-- microseconds.
pub mod Extract
pub mod Answer
pub mod Gemini
pub mod Retry
pub mod Spacing
pub mod Choice
pub mod Mock
use callsense.Prelude.{
  ℕ, zero, suc, ◌+◌, ◌-◌, ◌*◌, ◌^◌, Bool, true, false, not, ◌&&◌, ◌||◌, String, Option, none, some,
  List, [], ◌∷◌, ◌++◌, ◌==◌, str_eq, ltb, leb, if◌then◌else◌, codes, drop, strip, drop_while,
  drop_end, is_space, starts_with, text_eq, contains, before_first, find, rfind, slice,
}
use callsense.Double.{Double, round_div}
use callsense.Models.Tables.{Text}
use callsense.Session.{Error, external, Result, ok, err}
use callsense.Pipeline.Stages.Classify.{Verdict}

abbrev pub fence : Text
fence = b'`' ∷ b'`' ∷ b'`' ∷ []

-- The characters that `lstrip("json")` drops.
unfoldable pub in_json : ℕ → Bool
in_json c = c == b'j' || c == b's' || c == b'o' || c == b'n'

-- text[start : end + 1] if both braces were found, else text
abbrev span : Option ℕ → Option ℕ → Text → Text
span none stop text = text
span (some start) none text = text
span (some start) (some stop) text = slice start (suc stop) text

unfoldable pub braced : Text → Text
unfolding find rfind slice
braced text = span (find b'{' text) (rfind b'}' text) text

-- text.split("```", 2)[1].lstrip("json").strip() of a text that starts with a fence.
unfoldable pub unfenced : Text → Text
unfolding before_first drop_while strip in_json starts_with
unfenced text =
    if starts_with fence text
    then strip (drop_while in_json (before_first fence (drop 3 text)))
    else text

unfoldable pub extract_json : Text → Text
unfolding unfenced braced strip
extract_json text = braced (unfenced (strip text))

-- A value under a key of what `json.loads` gives, as far as the code looks at it: of an array and
-- of an object within, the number of their items.
pub data Value : Type 0 where
  null : Value
  bool : Bool → Value
  int : ℕ → Value
  float : Double → Value
  str : Text → Value
  array dict : ℕ → Value

-- What `json.loads` gives: a dict, or a value that is none.
pub data Parsed : Type 0 where
  object : List (Text × Value) → Parsed
  not_object : Parsed

abbrev get_value : Text → List (Text × Value) → Option Value
get_value key [] = none
get_value key ((k, v) ∷ fields) =
    let rest = get_value key fields in if text_eq k key then some v else rest

-- bool(value)
abbrev is_true : Value → Bool
is_true Value.null = false
is_true (Value.bool b) = b
is_true (Value.int n) = not (n == 0)
is_true (Value.float x) = not (x == 0)
is_true (Value.str []) = false
is_true (Value.str (_ ∷ _)) = true
is_true (Value.array n) = not (n == 0)
is_true (Value.dict n) = not (n == 0)

abbrev pub is_sales : Option Value → Bool
is_sales none = true
is_sales (some v) = is_true v

-- str(value).lower() == "customer": of what is no text, `str` begins with another letter, a digit
-- or a bracket.
abbrev pub says_customer : (Text → Text) → Option Value → Bool
says_customer lower (some (Value.str t)) = text_eq (lower t) (codes "customer")
says_customer lower _ = false

-- A value that is no object has no method `get`; none stands for an answer that is no JSON.
abbrev pub answer_verdict : (Text → Text) → Option Parsed → Result Verdict
answer_verdict lower none = ok (record { sales = true; advisor_is_customer = false })
answer_verdict lower (some (Parsed.object fields)) = ok (record {
  sales = is_sales (get_value (codes "sales") fields);
  advisor_is_customer = says_customer lower (get_value (codes "advisor_is") fields);
})
answer_verdict lower (some Parsed.not_object) = err (external "AttributeError")

unfoldable pub parse_classify : (Text → Text) → (Text → Option Parsed) → Text → Result Verdict
unfolding extract_json
parse_classify lower loads raw = answer_verdict lower (loads (extract_json raw))

-- `text or ""`
abbrev pub or_empty : Option Text → Text
or_empty none = []
or_empty (some t) = t
