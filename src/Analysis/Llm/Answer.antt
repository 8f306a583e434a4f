-- ===== src/Analysis/Llm/Answer.antt =====
-- What `_parse_classify` of backend/analysis/llm.py makes of an answer.
use callsense.Prelude.{
  true, false, Option, none, some, List, ◌≡◌, ◌≢◌, ◌↔◌, refl, ap, ◌∙◌, arith, codes, text_eq,
}
use callsense.Models.Tables.{Text}
use callsense.Session.{external, Result, ok, err}
use callsense.Pipeline.Stages.Classify.{Verdict}
use callsense.Analysis.Llm.{
  Value, Parsed, get_value, is_true, is_sales, says_customer, answer_verdict, extract_json,
  parse_classify,
}

-- Why an answer is taken for another than a sales call, and why for one with the roles exchanged.
abbrev Disclaims : Option Parsed → Type 0
Disclaims parsed =
    (fields : List (Text × Value)) × (v : Value) × (parsed ≡ some (Parsed.object fields))
    × (get_value (codes "sales") fields ≡ some v)
    × (is_true v ≡ false)

abbrev Exchanges : (Text → Text) → Option Parsed → Type 0
Exchanges lower parsed =
    (fields : List (Text × Value)) × (t : Text) × (parsed ≡ some (Parsed.object fields))
    × (get_value (codes "advisor_is") fields ≡ some (Value.str t))
    × (text_eq (lower t) (codes "customer") ≡ true)

abbrev pub Justified : (Text → Text) → Option Parsed → Result Verdict → Type 0
Justified lower parsed (err e) = (parsed ≡ some Parsed.not_object) × (e ≡ external "AttributeError")
Justified lower parsed (ok v) =
    (parsed ≢ some Parsed.not_object)
    × (v.sales ≡ false ↔ Disclaims parsed)
    × (v.advisor_is_customer ≡ true ↔ Exchanges lower parsed)

-- An object's verdict, from the values of its two fields.
is_sales_iff :
    (found : Option Value)
    → is_sales found ≡ false ↔ ((v : Value) × (found ≡ some v) × (is_true v ≡ false))
is_sales_iff none = (λ p. ground arith, λ (v, found, _). ground arith)
is_sales_iff (some v) =
    (λ falsy. (v, refl, falsy), λ (u, found, falsy). ap (λ x. is_sales x) found ∙ falsy)

says_customer_iff :
    (lower : Text → Text) (found : Option Value)
    → says_customer lower found ≡ true
      ↔ ((t : Text) × (found ≡ some (Value.str t)) × (text_eq (lower t) (codes "customer") ≡ true))
says_customer_iff lower found = (said found, λ (t, e, same). ap (says_customer lower) e ∙ same)
  where
    said :
        (x : Option Value)
        → says_customer lower x ≡ true
        → (t : Text) × (x ≡ some (Value.str t)) × (text_eq (lower t) (codes "customer") ≡ true)
    said (some (Value.str t)) h = (t, refl, h)
    said none h = absurd (ground arith)
    said (some Value.null) h = absurd (ground arith)
    said (some (Value.bool b)) h = absurd (ground arith)
    said (some (Value.int n)) h = absurd (ground arith)
    said (some (Value.float x)) h = absurd (ground arith)
    said (some (Value.array n)) h = absurd (ground arith)
    said (some (Value.dict n)) h = absurd (ground arith)

fields_eq :
    (fields other : List (Text × Value))
    → some (Parsed.object fields) ≡ some (Parsed.object other)
    → fields ≡ other
fields_eq fields other e = ground arith

answer_verdict-Justified :
    (lower : Text → Text) (parsed : Option Parsed)
    → Justified lower parsed (answer_verdict lower parsed)
answer_verdict-Justified lower none = (
  λ e. ground arith,
  (λ e. absurd (ground arith), λ (fields, v, e, _, _). absurd (ground arith)),
  (λ e. absurd (ground arith), λ (fields, t, e, _, _). absurd (ground arith)),
)
answer_verdict-Justified lower (some Parsed.not_object) = (refl, refl)
answer_verdict-Justified lower (some (Parsed.object fields)) =
    let sales = is_sales_iff (get_value (codes "sales") fields) in
    let customer = says_customer_iff lower (get_value (codes "advisor_is") fields) in
    (
      λ e. ground arith,
      (
        λ e. let (v, found, falsy) = sales.0 e in (fields, v, refl, found, falsy),
        λ (other, v, e, found, falsy).
            sales.1 (v, ap (get_value (codes "sales")) (fields_eq fields other e) ∙ found, falsy),
      ),
      (
        λ e. let (t, found, same) = customer.0 e in (fields, t, refl, found, same),
        λ (other, t, e, found, same).
            customer.1
              (t, ap (get_value (codes "advisor_is")) (fields_eq fields other e) ∙ found, same),
      ),
    )

-- A call is screened out exactly where the answer holds an object whose `sales` is there and false
-- to Python, and the roles count as exchanged exactly where its `advisor_is` is the text `customer`
-- in any case: what is no JSON counts as a sales call with its roles as they are. An answer that is
-- JSON and no object raises an AttributeError, and nothing else raises.
pub parse_classify-Justified :
    (lower : Text → Text) (loads : Text → Option Parsed) (raw : Text)
    → Justified lower (loads (extract_json raw)) (parse_classify lower loads raw)
unfolding parse_classify
parse_classify-Justified lower loads raw = answer_verdict-Justified lower (loads (extract_json raw))
