-- ===== src/Pipeline/Stages/Analyse/Grounded.antt =====
-- Every flag of the analysis is backed by the transcript.
use mathlib.Core.List.{append-nil, append_assoc}
use callsense.Double.{Double}
use callsense.Prelude.{
  Any, ℕ, ◌≤◌, Bool, true, false, not, ◌&&◌, String, Option, none, some, List, [], ◌∷◌, ◌++◌, ◌≡◌,
  refl, sym, ap, ◌∙◌, arith, ltb, All, All-append, Bool-cases, ◌⊎◌, inl, inr,
}
use callsense.Models.Taxonomy.{info, is_info, open_, FlagTag, talk_over_customer, SpeakerRole}
use callsense.Models.Tables.{Text, Flag, Db}
use callsense.Transcription.Base.{TxSegment}
use callsense.Analysis.Rubric.{DimScores}
use callsense.Analysis.Schema.{DimensionScore, RawFlag, AnalysisResult}
use callsense.Analysis.Verify.{Unicode, verify_quote, default_threshold}
use callsense.Analysis.Metrics.{talk_ratio}
use callsense.Pipeline.Stages.Base.{merge_raw_metadata, tx_segments}
use callsense.Pipeline.Stages.Classify.{insert_flag}
use callsense.Pipeline.Stages.Analyse.{
  Analyst, new_score, store_scores, new_flag, store_flag, store_flags, store_ratio,
  insert_composite, store, grade, is_customer_quote, talk_flag, speaker_of, run,
}
use callsense.Analysis.Rubric.{tag_severity, confidence_threshold}
use callsense.Analysis.Verify.Gate.{
  IsClose, IsAt, Any-map, default_threshold_pos, verify_quote-located,
}
use callsense.Pipeline.Stages.Analyse.Cases.{run_cases}

-- What is stored of a flag against the segments: its quote stands in one of them, at the stored
-- times; a flag without a quote is the measured talk ratio. It is either for information or has the
-- severity of its tag, and the confidence that this takes.
abbrev IsQuoted : Unicode → List TxSegment → Flag → Option Text → Type 0
IsQuoted u segments f none = (f.tag ≡ talk_over_customer) × (f.severity ≡ info)
IsQuoted u segments f (some q) =
    Any
      (λ seg.
        IsClose u q default_threshold seg
        × (f.start_s ≡ some seg.start_s)
        × (f.end_s ≡ some seg.end_s))
      segments

abbrev IsGraded : Flag → Type 0
IsGraded f =
    (f.severity ≡ info)
    ⊎ ((f.severity ≡ tag_severity f.tag) × (confidence_threshold ≤ f.confidence))

abbrev pub IsGrounded : Unicode → List TxSegment → ℕ → Flag → Type 0
IsGrounded u segments call_id f =
    (f.call_id ≡ call_id) × (f.state ≡ open_) × IsQuoted u segments f f.quote × IsGraded f

-- The flags are the earlier ones and new ones that have the property.
abbrev Extends : (Flag → Type 0) → List Flag → List Flag → Type 0
Extends P before after = (new : List Flag) × (after ≡ before ++ new) × All P new

Extends-snoc :
    (P : Flag → Type 0) (before after : List Flag) (f : Flag)
    → Extends P before after
    → P f
    → Extends P before (after ++ f ∷ [])
Extends-snoc P before after f (new, e, all) p = (
  new ++ f ∷ [],
  ap (λ x. x ++ f ∷ []) e ∙ append_assoc before new (f ∷ []),
  All-append P new (f ∷ []) all (p, tt),
)

grade-IsGraded :
    (tag : FlagTag) (confidence : Double) (speaker : Option SpeakerRole)
    → let severity = (grade tag confidence speaker).0 in
      (severity ≡ info) ⊎ ((severity ≡ tag_severity tag) × (confidence_threshold ≤ confidence))
unfolding grade
grade-IsGraded tag confidence speaker = elim (Bool-cases (ltb confidence confidence_threshold)) [
  | inl e ↦ inl (ground arith)
  | inr e ↦ elim (Bool-cases (is_customer_quote speaker && not (is_info (tag_severity tag)))) [
    | inl c ↦ inl (rw (e, c))
    | inr c ↦ inr (rw (e, c) (refl, ground arith))
  ]
]

module _ (u : Unicode) (analyst : Analyst) (call_id : ℕ) (segments : List TxSegment)
    (before : List Flag) where
  flags-IsGrounded :
      (flags : List RawFlag) (b : Bool) (db : Db)
      → Extends (IsGrounded u segments call_id) before db.flags
      → Extends
          (IsGrounded u segments call_id)
          before
          (store_flags u analyst call_id segments flags (b, db)).1.flags
  unfolding store_flags insert_flag
  flags-IsGrounded [] b db h = h
  flags-IsGrounded (flag ∷ flags) b db h =
      let match = verify_quote u flag.quote segments default_threshold in
      let (b', db') = store_flag u analyst call_id segments flag match (b, db) in
      flags-IsGrounded flags b' db' (elim (Bool-cases match.found) [
        | inl e ↦
            let graded = grade flag.tag flag.confidence (speaker_of segments match.segment_idx) in
            let row = new_flag u analyst call_id flag match graded db.next.flags in
            let places =
              Any-map (λ seg. IsClose u flag.quote default_threshold seg × IsAt match seg)
                (λ seg.
                  IsClose u flag.quote default_threshold seg
                  × (match.start_s ≡ some seg.start_s)
                  × (match.end_s ≡ some seg.end_s))
                (λ seg (close, (idx, start, stop)). (close, start, stop)) segments
                (verify_quote-located u flag.quote segments default_threshold default_threshold_pos
                  e) in
            rw e (
              Extends-snoc (IsGrounded u segments call_id) before db.flags row h (
                refl,
                refl,
                places,
                grade-IsGraded flag.tag flag.confidence (speaker_of segments match.segment_idx),
              ))
        | inr e ↦ rw e h
      ])

  scores_flags :
      (hash : String) (dims : List DimensionScore) (scores : DimScores) (db : Db)
      → (store_scores u analyst call_id segments hash dims scores db).1.flags ≡ db.flags
  unfolding store_scores
  scores_flags hash [] scores db = refl
  scores_flags hash (dim ∷ dims) scores db =
      scores_flags hash dims ((dim.dimension, dim.score) ∷ scores)
        (record db { scores = db.scores ++ new_score u analyst call_id segments hash dim ∷ [] })

  ratio-IsGrounded :
      (r : Option ℕ) (db : Db)
      → Extends (IsGrounded u segments call_id) before db.flags
      → Extends (IsGrounded u segments call_id) before (store_ratio u analyst call_id r db).flags
  unfolding merge_raw_metadata insert_flag
  ratio-IsGrounded none db h = h
  ratio-IsGrounded (some r) db h = elim (Bool-cases (ltb 750 r)) [
    | inl e ↦ rw e (
        Extends-snoc (IsGrounded u segments call_id) before db.flags
          (talk_flag call_id r db.next.flags) h (refl, refl, (refl, refl), inl refl))
    | inr e ↦ rw e h
  ]

store-IsGrounded :
    (u : Unicode) (analyst : Analyst) (call_id : ℕ) (segments : List TxSegment) (hash : String)
    (result : AnalysisResult) (db : Db)
    → Extends
        (IsGrounded u segments call_id)
        db.flags
        (store u analyst call_id segments hash result db).flags
unfolding store insert_composite
store-IsGrounded u analyst call_id segments hash result db =
    let (scores, scored) = store_scores u analyst call_id segments hash result.dimensions [] db in
    let (b, flagged) = store_flags u analyst call_id segments result.flags (false, scored) in
    let start : Extends (IsGrounded u segments call_id) db.flags scored.flags = (
      [],
      scores_flags u analyst call_id segments db.flags hash result.dimensions [] db
          ∙ sym (append-nil db.flags),
      tt,
    ) in
    ratio-IsGrounded u analyst call_id segments db.flags (talk_ratio segments) flagged
      (flags-IsGrounded u analyst call_id segments db.flags result.flags false scored start)

-- Whatever the model answers, the analysis of a call only appends flags, open ones of that call. A
-- new flag's quote stands in a segment of the call's redacted transcript, at that segment's times and
-- as close as the threshold asks; only the talk-ratio flag, which is for information, has no quote. A
-- new flag that is not for information has the severity of its tag and at least the threshold's
-- confidence.
pub run-IsGrounded :
    (u : Unicode) (analyst : Analyst) (call_id : ℕ) (db : Db)
    → (new : List Flag) × ((run u analyst call_id db).1.flags ≡ db.flags ++ new)
      × All (IsGrounded u (tx_segments call_id true db) call_id) new
run-IsGrounded u analyst call_id db = elim (run_cases u analyst call_id db) [
  | inl same ↦ ([], ap (λ (x : Db). x.flags) same ∙ sym (append-nil db.flags), tt)
  | inr (absent, hash, result, e) ↦
      let (new, added, all) =
        store-IsGrounded u analyst call_id (tx_segments call_id true db) hash result db in
      (new, ap (λ (x : Db). x.flags) e ∙ added, all)
]
