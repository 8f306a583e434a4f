-- ===== src/Analysis/Llm/Mock.antt =====
-- `MockLLM` of backend/analysis/llm.py, and how its answers fit the canned transcripts.
use callsense.Prelude.{
  ℕ, suc, Bool, true, false, not, String, Option, none, some, List, [], ◌∷◌, ◌≡◌, refl, inl, inr,
  arith, All, Any, str_eq, contains, if◌then◌else◌, Bool-cases,
}
use callsense.Double.{decimal}
use callsense.Models.Tables.{Text}
use callsense.Analysis.Schema.{
  DimensionScore, RawFlag, AnalysisResult, scores_valid, confidences_valid, is_valid,
}
use callsense.Fixtures.{Line, Fixture, fixtures, fixture_in, get_fixture, over_promiser}
use callsense.Fixtures.Verbatim.{
  in_some, dimensions_stand, flags_stand, quotes_stand, over_promiser-stands, good_discovery-stands,
  pushy_pressure-stands, hidden_costs-stands,
}
use callsense.Pipeline.Stages.Classify.{Verdict}
use callsense.Transcription.Base.{TxSegment}
use callsense.Transcription.Mock.{numbered, mock_transcript}
use callsense.Transcription.Diarize.{Listener, all_named, is_labelled, diarise}

-- MockLLM(fixture).analyse(…): the analysis of the fixture, as JSON and back.
unfoldable pub mock_answer : Option String → AnalysisResult
mock_answer fixture =
    let fx = get_fixture fixture in record { dimensions = fx.dimensions; flags = fx.flags }

-- MockLLM(fixture).classify(…)
unfoldable pub mock_classify : Option String → Verdict
mock_classify fixture = record {
  sales = not (get_fixture fixture).non_sales;
  advisor_is_customer = false;
}

pick : (P : Fixture → Type 0) (b : Bool) (f g : Fixture) → P f → P g → P (if b then f else g)
pick P true f g p q = p
pick P false f g p q = q

-- What holds of each fixture holds of the one for a name, whatever the name is.
fixture_in_ind :
    (P : Fixture → Type 0) (name : String) (table : List (String × Fixture))
    → P over_promiser
    → All (λ (row : String × Fixture). P row.1) table
    → P (fixture_in name table)
unfolding fixture_in
fixture_in_ind P name [] p h = p
fixture_in_ind P name ((key, f) ∷ table) p h =
    pick P (str_eq key name) f (fixture_in name table) h.0 (fixture_in_ind P name table p h.1)

get_fixture_ind :
    (P : Fixture → Type 0)
    → P over_promiser
    → All (λ (row : String × Fixture). P row.1) fixtures
    → (name : Option String) → P (get_fixture name)
unfolding get_fixture
get_fixture_ind P p h none = p
get_fixture_ind P p h (some name) =
    pick P (str_eq name "") over_promiser (fixture_in name fixtures) p
      (fixture_in_ind P name fixtures p h)

-- A quote is a part of the text of one of the segments.
abbrev pub Stands : List TxSegment → Text → Type 0
Stands segments quote = Any (λ (s : TxSegment). contains quote s.text ≡ true) segments

in_some-Stands :
    (quote : Text) (i : ℕ) (lines : List Line)
    → in_some quote lines ≡ true
    → Stands (numbered i lines) quote
in_some-Stands quote i [] h = absurd (ground arith)
in_some-Stands quote i (l ∷ lines) h = elim (Bool-cases (contains quote l.text)) [
  | inl e ↦ inl e
  | inr e ↦ inr (in_some-Stands quote (suc i) lines (ground arith))
]

dimensions-Stand :
    (lines : List Line) (dims : List DimensionScore)
    → dimensions_stand lines dims ≡ true
    → All (λ d. Stands (numbered 0 lines) d.evidence_quote) dims
dimensions-Stand lines [] h = tt
dimensions-Stand lines (d ∷ dims) h = (
  in_some-Stands d.evidence_quote 0 lines (ground arith),
  dimensions-Stand lines dims (ground arith),
)

flags-Stand :
    (lines : List Line) (flags : List RawFlag)
    → flags_stand lines flags ≡ true
    → All (λ f. Stands (numbered 0 lines) f.quote) flags
flags-Stand lines [] h = tt
flags-Stand lines (f ∷ flags) h =
    (in_some-Stands f.quote 0 lines (ground arith), flags-Stand lines flags (ground arith))

abbrev IsAnswer : Fixture → Type 0
IsAnswer f =
    (is_valid (record { dimensions = f.dimensions; flags = f.flags }) ≡ true)
    × (quotes_stand f ≡ true)
    × (is_labelled (numbered 0 f.segments) ≡ true)

get_fixture-IsAnswer : (name : Option String) → IsAnswer (get_fixture name)
unfolding is_valid scores_valid confidences_valid all_named contains decimal
get_fixture-IsAnswer name =
    let first : IsAnswer over_promiser = (refl, over_promiser-stands, refl) in
    get_fixture_ind IsAnswer first
      (
        first,
        (
          (refl, good_discovery-stands, refl),
          (
            (refl, pushy_pressure-stands, refl),
            ((refl, hidden_costs-stands, refl), ((refl, refl, refl), tt)),
          ),
        ),
      )
      name

-- In MOCK_MODE the canned answer for a name, which may be any text or missing, passes the schema,
-- each of its quotes is a verbatim part of a segment of the canned transcript for that name, and
-- diarisation leaves that transcript as it is, with confidence 1.
pub mock_answer_lem :
    (lower : Text → Text) (split voice : Listener) (audio_uri : String) (channels : Option ℕ)
    (name : Option String)
    → let segments = (mock_transcript lower name).segments in
      (is_valid (mock_answer name) ≡ true)
      × All (λ d. Stands segments d.evidence_quote) (mock_answer name).dimensions
      × All (λ f. Stands segments f.quote) (mock_answer name).flags
      × (diarise split voice audio_uri channels segments ≡ (segments, 1000))
unfolding mock_answer mock_transcript diarise
mock_answer_lem lower split voice audio_uri channels name =
    let f = get_fixture name in
    let (valid, stand, labelled) = get_fixture-IsAnswer name in
    (
      valid,
      dimensions-Stand f.segments f.dimensions (ground arith),
      flags-Stand f.segments f.flags (ground arith),
      rw labelled refl,
    )
