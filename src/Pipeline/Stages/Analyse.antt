-- ===== src/Pipeline/Stages/Analyse.antt =====
-- backend/pipeline/stages/analyse.py: the scores, the flags that pass the quote gate, the talk
-- ratio and the composite are stored.
pub mod Cases
pub mod Stored
pub mod Fresh
pub mod Grounded
use callsense.Prelude.{
  ℕ, zero, suc, ◌+◌, Bool, true, false, not, ◌&&◌, ◌||◌, String, Option, none, some, List, [], ◌∷◌,
  ◌++◌, ◌==◌, if◌then◌else◌, ltb, exists_where, update_where, take, codes, show_nat,
}
use mathlib.Core.List.{reverse}
use callsense.Double.{Double, one, from_int, decimal, mul, round_places}
use callsense.Models.Taxonomy.{
  RubricDimension, SpeakerRole, customer, FlagTag, talk_over_customer, FlagSeverity, info, warn,
  critical, FlagState, open_, CalibrationVerdict, is_info, is_critical, is_customer, dimension_eq,
}
use callsense.Models.Tables.{Text, Json, Score, CallScore, Flag, CalibrationExample, Db}
use callsense.Session.{
  validation_error, Result, ok, err, Session, pure, lift, select, execute, ◌>>=◌, ◌>>◌,
}
use callsense.Transcription.Base.{TxSegment}
use callsense.Analysis.Rubric.{
  DimScores, rubric_version, dimension_weights, tag_severity, confidence_threshold,
  compute_composite,
}
use callsense.Analysis.Schema.{DimensionScore, RawFlag, AnalysisResult, is_valid}
use callsense.Analysis.Metrics.{talk_ratio}
use callsense.Analysis.Verify.{Unicode, QuoteMatch, verify_quote, default_threshold}
use callsense.Pipeline.Stages.Base.{
  CallInfo, load_call, load_tx_segments, merge_raw_metadata, transcript_text,
}
use callsense.Pipeline.Stages.Classify.{insert_flag}

-- Pydantic on the decoded answer; `none` is an answer that it cannot decode.
unfoldable pub model_validate : Option AnalysisResult → Result AnalysisResult
model_validate none = err validation_error
model_validate (some r) = if is_valid r then ok r else err validation_error

-- A second request if the first answer is not valid. The n-th request is `analyse n`.
unfoldable pub analyse_with_retry : (ℕ → Result (Option AnalysisResult)) → Result AnalysisResult
analyse_with_retry analyse = elim (analyse 0) [
  | err e ↦ err e
  | ok raw ↦ elim (model_validate raw) [
    | ok r ↦ ok r
    | err _ ↦ elim (analyse 1) [ err e ↦ err e | ok again ↦ model_validate again ]
  ]
]

-- DIMENSION_WEIGHTS.get(dim, 0.0)
unfoldable pub weight_of : RubricDimension → List (RubricDimension × Double) → Double
weight_of dim [] = 0
weight_of dim ((d, w) ∷ rest) = if dimension_eq d dim then w else weight_of dim rest

unfoldable pub speaker_of : List TxSegment → Option ℕ → Option SpeakerRole
speaker_of segments none = none
speaker_of [] (some i) = none
speaker_of (seg ∷ segments) (some i) =
    if seg.idx == i then some seg.speaker else speaker_of segments (some i)

abbrev pub is_customer_quote : Option SpeakerRole → Bool
is_customer_quote none = false
is_customer_quote (some s) = is_customer s

abbrev pub downgrade_note : Text
downgrade_note =
    codes
      " [Quote is attributed to the customer — speaker labels may be uncertain; downgraded for review.]"

-- The severity after the two downgrades, and whether the second took place.
unfoldable pub grade : FlagTag → Double → Option SpeakerRole → FlagSeverity × Bool
grade tag confidence speaker =
    let severity = if ltb confidence confidence_threshold then info else tag_severity tag in
    if is_customer_quote speaker && not (is_info severity) then (info, true) else (severity, false)

-- _load_calibration: the last five examples, newest first.
unfoldable pub load_calibration : Db → List CalibrationExample
load_calibration db = take 5 (reverse db.calibration_examples)

abbrev pub percent : ℕ → Text
percent thousandths =
    show_nat (round_places 0 (mul (decimal thousandths 3) (from_int 100))) ++ codes "%"

unfoldable pub talk_reason : ℕ → Text
talk_reason ratio =
    codes "Advisor spoke "
    ++ percent ratio
    ++ codes " of the conversation (threshold "
    ++ percent 750
    ++ codes ") — measured from diarised segment durations."

abbrev pub talk_flag : ℕ → ℕ → ℕ → Flag
talk_flag call_id ratio id = record {
  id = id;
  call_id = call_id;
  tag = talk_over_customer;
  severity = info;
  start_s = none;
  end_s = none;
  quote = none;
  reason = talk_reason ratio;
  confidence = one;
  state = open_;
}

-- What the model is asked, and how the request is named. `answer` is the decoded reply to the n-th
-- request; `prompt_hash` the SHA-256 of the prompt.
pub record Analyst : Type 0 where
  pub answer : Option String → Text → List CalibrationExample → ℕ → Result (Option AnalysisResult)
  pub prompt_hash : Text → List CalibrationExample → String
  pub model_name : String

module _ (u : Unicode) (analyst : Analyst) where
  abbrev pub new_score : ℕ → List TxSegment → String → DimensionScore → Score
  new_score call_id segments prompt_hash dim =
      let match = verify_quote u dim.evidence_quote segments default_threshold in
      record {
        call_id = call_id;
        rubric_version = rubric_version;
        dimension = dim.dimension;
        raw_score = dim.score;
        weight = weight_of dim.dimension dimension_weights;
        evidence_quote = dim.evidence_quote;
        evidence_start_s = if match.found then match.start_s else none;
        model = analyst.model_name;
        prompt_hash = prompt_hash;
      }

  -- The loop over the dimensions: the rows, and `dim_scores`.
  unfoldable pub store_scores :
      ℕ → List TxSegment → String → List DimensionScore → DimScores → Db → DimScores × Db
  store_scores call_id segments hash [] scores db = (scores, db)
  store_scores call_id segments hash (dim ∷ dims) scores db =
      store_scores call_id segments hash dims ((dim.dimension, dim.score) ∷ scores)
        (record db { scores = db.scores ++ new_score call_id segments hash dim ∷ [] })

  abbrev pub new_flag : ℕ → RawFlag → QuoteMatch → FlagSeverity × Bool → ℕ → Flag
  new_flag call_id flag match (severity, downgraded) id = record {
    id = id;
    call_id = call_id;
    tag = flag.tag;
    severity = severity;
    start_s = match.start_s;
    end_s = match.end_s;
    quote = some flag.quote;
    reason = if downgraded then flag.reason ++ downgrade_note else flag.reason;
    confidence = flag.confidence;
    state = open_;
  }

  abbrev pub store_flag : ℕ → List TxSegment → RawFlag → QuoteMatch → Bool × Db → Bool × Db
  store_flag call_id segments flag match (has_critical, db) =
      let graded = grade flag.tag flag.confidence (speaker_of segments match.segment_idx) in
      if match.found
      then (
        has_critical || is_critical graded.0,
        insert_flag (new_flag call_id flag match graded) db,
      )
      else (has_critical, db)

  -- The loop over the flags: whether a critical one was kept, and the rows.
  unfoldable pub store_flags : ℕ → List TxSegment → List RawFlag → Bool × Db → Bool × Db
  store_flags call_id segments [] state = state
  store_flags call_id segments (flag ∷ flags) state = store_flags call_id segments flags (
      store_flag call_id segments flag (verify_quote u flag.quote segments default_threshold) state)

  abbrev pub store_ratio : ℕ → Option ℕ → Db → Db
  store_ratio call_id none db = db
  store_ratio call_id (some ratio) db =
      let noted = merge_raw_metadata call_id (("talk_ratio", Json.thousandths ratio) ∷ []) db in
      if ltb 750 ratio then insert_flag (talk_flag call_id ratio) noted else noted

  unfoldable pub insert_composite : ℕ → ℕ × Bool → Db → Db
  insert_composite call_id (composite, capped) db = record db {
    call_scores =
        db.call_scores
        ++ record {
          call_id = call_id;
          composite = composite;
          rubric_version = rubric_version;
          compliance_capped = capped;
        }
          ∷ [];
  }

  -- From the validated answer to the rows.
  unfoldable pub store : ℕ → List TxSegment → String → AnalysisResult → Db → Db
  store call_id segments hash result db =
      let (dim_scores, scored) = store_scores call_id segments hash result.dimensions [] db in
      let (has_critical, flagged) = store_flags call_id segments result.flags (false, scored) in
      insert_composite call_id (compute_composite dim_scores has_critical)
        (store_ratio call_id (talk_ratio segments) flagged)

  unfoldable pub analyse_call : ℕ → Session (Unit {0})
  analyse_call call_id = do
    call ← load_call call_id
    segments ← load_tx_segments call_id true
    let transcript = transcript_text segments
    calibration ← select load_calibration
    result ← lift (analyse_with_retry (analyst.answer call.fixture transcript calibration))
    execute (store call_id segments (analyst.prompt_hash transcript calibration) result)

  unfoldable pub run : ℕ → Session (Unit {0})
  run call_id = do
    scored ← select (λ db. exists_where (λ (r : CallScore). r.call_id == call_id) db.call_scores)
    if scored then pure tt else analyse_call call_id
