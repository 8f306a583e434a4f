-- ===== src/Pipeline/Stages/Analyse/Fresh.antt =====
-- The composite that the analysis stores, against the one computed from what it stored.
use mathlib.Core.Path.{subst}
use callsense.Prelude.{
  ℕ, Bool, true, false, ◌||◌, String, List, [], ◌∷◌, ◌≡◌, ◌≢◌, refl, sym, ap, ◌∙◌, arith, ◌==◌,
  select_where, exists_where, All, All-append, All-map, All-zip, inl, inr,
}
use callsense.Models.Tables.{CallScore, Db}
use callsense.Transcription.Base.{TxSegment}
use callsense.Analysis.Rubric.{DimScores, rubric_version, compute_composite}
use callsense.Analysis.Schema.{AnalysisResult}
use callsense.Analysis.Recompute.{live_composite, is_score_of, caps, dim_scores_from}
use callsense.Analysis.Recompute.Fresh.{IsFresh, IsFreshIn, live_composite-eq}
use callsense.Analysis.Verify.{Unicode}
use callsense.Analysis.Metrics.{talk_ratio}
use callsense.Pipeline.Stages.Base.{tx_segments}
use callsense.Pipeline.Stages.Analyse.{
  Analyst, store_scores, store_flags, store_ratio, insert_composite, store, run,
}
use callsense.Pipeline.Stages.Analyse.Stored.{
  IsStored, exists_where-snoc, store_scores-IsStored, store_flags-IsStored, ratio-IsStored,
}
use callsense.Pipeline.Stages.Analyse.Cases.{is_composite_of, run_cases}

-- A call without a composite has no scores and no flag that would cap it.
abbrev pub IsBacked : Db → Type 0
IsBacked db =
    (c : ℕ)
    → exists_where (is_composite_of c) db.call_scores ≡ false
    → (select_where (is_score_of c) db.scores ≡ []) × (exists_where (caps c) db.flags ≡ false)

exists_where-none :
    (c : ℕ) (rows : List CallScore)
    → exists_where (is_composite_of c) rows ≡ false
    → All (λ (r : CallScore). r.call_id ≢ c) rows
unfolding exists_where
exists_where-none c [] h = tt
exists_where-none c (r ∷ rows) h = (ground arith, exists_where-none c rows (ground arith))

module _ (u : Unicode) (analyst : Analyst) (call_id : ℕ) (segments : List TxSegment)
    (before : Db) where
  own_live :
      (scores : DimScores) (b : Bool) (db : Db)
      → IsStored call_id before scores b db
      → live_composite db call_id ≡ compute_composite scores b
  unfolding live_composite
  own_live scores b db s = simp (s.own_scores, s.own_flags)

  other_live :
      (scores : DimScores) (b : Bool) (db : Db) (c : ℕ)
      → IsStored call_id before scores b db
      → c ≢ call_id
      → live_composite db c ≡ live_composite before c
  unfolding live_composite
  other_live scores b db c s ne = simp (s.other_scores c ne, s.other_flags c ne)

  -- The composite's row is fresh once the loops and the talk ratio are stored; so are the others.
  composite-IsFresh :
      (scores : DimScores) (b : Bool) (db : Db)
      → IsStored call_id before scores b db
      → IsFresh before
      → All (λ (r : CallScore). r.call_id ≢ call_id) before.call_scores
      → IsFresh (insert_composite u analyst call_id (compute_composite scores b) db)
  unfolding insert_composite
  composite-IsFresh scores b db s fresh unscored =
      let after = insert_composite u analyst call_id (compute_composite scores b) db in
      let row : CallScore = record {
        call_id = call_id;
        composite = (compute_composite scores b).0;
        rubric_version = rubric_version;
        compliance_capped = (compute_composite scores b).1;
      } in
      let live : (c : ℕ) → live_composite after c ≡ live_composite db c =
        λ c. live_composite-eq db after c refl refl in
      let others : All (IsFreshIn after) before.call_scores =
        All-map (λ r. IsFreshIn before r × (r.call_id ≢ call_id)) (IsFreshIn after)
          before.call_scores
          (λ r (h, ne). h ∙ sym (live r.call_id ∙ other_live scores b db r.call_id s ne))
          (All-zip (IsFreshIn before) (λ r. r.call_id ≢ call_id) before.call_scores fresh
            unscored) in
      All-append (IsFreshIn after) db.call_scores (row ∷ [])
        (subst (All (IsFreshIn after)) (sym s.composites) others)
        (sym (live call_id ∙ own_live scores b db s), tt)

  composite-IsBacked :
      (scores : DimScores) (b : Bool) (db : Db)
      → IsStored call_id before scores b db
      → IsBacked before
      → IsBacked (insert_composite u analyst call_id (compute_composite scores b) db)
  unfolding insert_composite
  composite-IsBacked scores b db s backed = λ c none_of.
      let e : (exists_where (is_composite_of c) db.call_scores || (call_id == c)) ≡ false =
        sym (exists_where-snoc (is_composite_of c) db.call_scores _) ∙ none_of in
      let ne : c ≢ call_id = ground arith in
      let absent : exists_where (is_composite_of c) before.call_scores ≡ false =
        ap (exists_where (is_composite_of c)) (sym s.composites) ∙ ground arith in
      (s.other_scores c ne ∙ (backed c absent).0, s.other_flags c ne ∙ (backed c absent).1)

  store-IsFresh :
      (hash : String) (result : AnalysisResult)
      → IsFresh before
      → IsBacked before
      → exists_where (is_composite_of call_id) before.call_scores ≡ false
      → let after = store u analyst call_id segments hash result before in
        IsFresh after × IsBacked after
  unfolding store dim_scores_from
  store-IsFresh hash result fresh backed absent =
      let (none_scored, none_flagged) = backed call_id absent in
      let start : IsStored call_id before [] false before = record {
        own_scores = ap (dim_scores_from []) none_scored;
        own_flags = none_flagged;
        other_scores = λ c ne. refl;
        other_flags = λ c ne. refl;
        composites = refl;
      } in
      let (scores, scored) =
        store_scores u analyst call_id segments hash result.dimensions [] before in
      let (b, flagged) = store_flags u analyst call_id segments result.flags (false, scored) in
      let s =
        store_scores-IsStored u analyst call_id segments before hash result.dimensions [] false
          before start in
      let t =
        store_flags-IsStored u analyst call_id segments before result.flags scores false scored s in
      let r =
        ratio-IsStored u analyst call_id segments before (talk_ratio segments) scores b flagged t in
      let measured = store_ratio u analyst call_id (talk_ratio segments) flagged in
      (
        composite-IsFresh scores b measured r fresh
            (exists_where-none call_id before.call_scores absent),
        composite-IsBacked scores b measured r backed,
      )

-- Where every stored composite agrees with a recomputation, and a call without a composite has no
-- scores and no flag that caps: the analysis of a call keeps both, whatever the model answers and
-- whether or not it raises.
pub run-IsFresh :
    (u : Unicode) (analyst : Analyst) (call_id : ℕ) (db : Db)
    → IsFresh db
    → IsBacked db
    → let after = (run u analyst call_id db).1 in IsFresh after × IsBacked after
run-IsFresh u analyst call_id db fresh backed = elim (run_cases u analyst call_id db) [
  | inl same ↦ subst (λ x. IsFresh x × IsBacked x) (sym same) (fresh, backed)
  | inr (absent, hash, result, e) ↦
      subst (λ x. IsFresh x × IsBacked x) (sym e)
        (store-IsFresh u analyst call_id (tx_segments call_id true db) db hash result fresh backed
          absent)
]
