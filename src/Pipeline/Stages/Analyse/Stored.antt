-- ===== src/Pipeline/Stages/Analyse/Stored.antt =====
-- The loops of the analysis: the local variables against the rows that are stored so far.
use mathlib.Core.Path.{subst}
use callsense.Prelude.{
  ℕ, Bool, true, false, ◌||◌, String, Option, none, some, List, [], ◌∷◌, ◌++◌, ◌≡◌, ◌≢◌, refl, ◌∙◌,
  arith, ◌==◌, ltb, select_where, exists_where, ==_refl, select_where-append, Bool-cases, inl, inr,
}
use callsense.Models.Taxonomy.{is_critical, open_}
use callsense.Models.Tables.{Json, Flag, Score, Db}
use callsense.Transcription.Base.{TxSegment}
use callsense.Analysis.Rubric.{DimScores}
use callsense.Analysis.Schema.{DimensionScore, RawFlag}
use callsense.Analysis.Recompute.{is_score_of, caps, dim_scores_from}
use callsense.Analysis.Verify.{Unicode, verify_quote, default_threshold}
use callsense.Pipeline.Stages.Base.{merge_raw_metadata}
use callsense.Pipeline.Stages.Classify.{insert_flag}
use callsense.Pipeline.Stages.Analyse.{
  Analyst, new_score, store_scores, new_flag, store_flag, store_flags, store_ratio, grade,
  talk_flag, speaker_of,
}

dim_scores_from-append :
    (scores : DimScores) (xs ys : List Score)
    → dim_scores_from scores (xs ++ ys) ≡ dim_scores_from (dim_scores_from scores xs) ys
unfolding dim_scores_from
dim_scores_from-append scores [] ys = refl
dim_scores_from-append scores (x ∷ xs) ys =
    dim_scores_from-append ((x.dimension, x.raw_score) ∷ scores) xs ys

-- While the loops run: the variables `dim_scores` and `has_critical` against the rows stored so
-- far, what other calls have, and the table that is still to be written.
pub record IsStored (call_id : ℕ) (before : Db) (scores : DimScores) (has_critical : Bool) (db : Db)
    : Type 0 where
  pub own_scores : dim_scores_from [] (select_where (is_score_of call_id) db.scores) ≡ scores
  pub own_flags : exists_where (caps call_id) db.flags ≡ has_critical
  pub other_scores :
      (c : ℕ)
      → c ≢ call_id
      → select_where (is_score_of c) db.scores ≡ select_where (is_score_of c) before.scores
  pub other_flags :
      (c : ℕ) → c ≢ call_id → exists_where (caps c) db.flags ≡ exists_where (caps c) before.flags
  pub composites : db.call_scores ≡ before.call_scores

or_false : (b : Bool) → (b || false) ≡ b
or_false true = refl
or_false false = refl

other_call : (id c : ℕ) → c ≢ id → (id == c) ≡ false
other_call id c ne = ground arith

select_where-snoc_false :
    {A : Type 0} (p : A → Bool) (xs : List A) (y : A)
    → p y ≡ false
    → select_where p (xs ++ y ∷ []) ≡ select_where p xs
unfolding select_where
select_where-snoc_false p [] y h = rw h
select_where-snoc_false p (x ∷ xs) y h = rw (select_where-snoc_false p xs y h)

pub exists_where-snoc :
    {A : Type 0} (p : A → Bool) (xs : List A) (y : A)
    → exists_where p (xs ++ y ∷ []) ≡ (exists_where p xs || p y)
unfolding exists_where
exists_where-snoc p [] y = ground arith
exists_where-snoc p (x ∷ xs) y = ground (arith, exists_where-snoc p xs y)

module _ (u : Unicode) (analyst : Analyst) (call_id : ℕ) (segments : List TxSegment)
    (before : Db) where
  score-IsStored :
      (scores : DimScores) (b : Bool) (db : Db) (hash : String) (dim : DimensionScore)
      → IsStored call_id before scores b db
      → IsStored call_id before
          ((dim.dimension, dim.score) ∷ scores)
          b
          (record db { scores = db.scores ++ new_score u analyst call_id segments hash dim ∷ [] })
  unfolding dim_scores_from select_where
  score-IsStored scores b db hash dim s =
      let row = new_score u analyst call_id segments hash dim in
      record {
        own_scores = rw (
          select_where-append (is_score_of call_id) db.scores (row ∷ []),
          ==_refl call_id,
          dim_scores_from-append [] (select_where (is_score_of call_id) db.scores) (row ∷ []),
          s.own_scores,
        );
        own_flags = s.own_flags;
        other_scores = λ c ne.
            select_where-snoc_false (is_score_of c) db.scores row (rw (other_call call_id c ne))
            ∙ s.other_scores c ne;
        other_flags = s.other_flags;
        composites = s.composites;
      }

  pub store_scores-IsStored :
      (hash : String) (dims : List DimensionScore) (scores : DimScores) (b : Bool) (db : Db)
      → IsStored call_id before scores b db
      → let (scores', db') = store_scores u analyst call_id segments hash dims scores db in
        IsStored call_id before scores' b db'
  unfolding store_scores
  store_scores-IsStored hash [] scores b db s = s
  store_scores-IsStored hash (dim ∷ dims) scores b db s =
      store_scores-IsStored hash dims ((dim.dimension, dim.score) ∷ scores) b
        (record db { scores = db.scores ++ new_score u analyst call_id segments hash dim ∷ [] })
        (score-IsStored scores b db hash dim s)

  -- A flag of this call that is open: it caps if it is critical.
  flag-IsStored :
      (scores : DimScores) (b : Bool) (db : Db) (flag : ℕ → Flag)
      → (flag db.next.flags).call_id ≡ call_id
      → (flag db.next.flags).state ≡ open_
      → IsStored call_id before scores b db
      → IsStored call_id before scores
          (b || is_critical (flag db.next.flags).severity)
          (insert_flag flag db)
  unfolding insert_flag
  flag-IsStored scores b db flag own live s =
      let row = flag db.next.flags in
      record {
        own_scores = s.own_scores;
        own_flags =
            exists_where-snoc (caps call_id) db.flags row
            ∙ simp (s.own_flags, own, live, ==_refl call_id) (ground arith);
        other_scores = s.other_scores;
        other_flags = λ c ne.
            exists_where-snoc (caps c) db.flags row
            ∙ simp (own, other_call call_id c ne)
                (or_false (exists_where (caps c) db.flags) ∙ s.other_flags c ne);
        composites = s.composites;
      }

  pub store_flags-IsStored :
      (flags : List RawFlag) (scores : DimScores) (b : Bool) (db : Db)
      → IsStored call_id before scores b db
      → let (b', db') = store_flags u analyst call_id segments flags (b, db) in
        IsStored call_id before scores b' db'
  unfolding store_flags
  store_flags-IsStored [] scores b db s = s
  store_flags-IsStored (flag ∷ flags) scores b db s =
      let match = verify_quote u flag.quote segments default_threshold in
      let (b', db') = store_flag u analyst call_id segments flag match (b, db) in
      store_flags-IsStored flags scores b' db' (elim (Bool-cases match.found) [
        | inl e ↦ rw e (
            let graded = grade flag.tag flag.confidence (speaker_of segments match.segment_idx) in
            flag-IsStored scores b db
              (new_flag u analyst call_id flag (record match { found = true }) graded) refl refl s)
        | inr e ↦ rw e s
      ])

  pub ratio-IsStored :
      (r : Option ℕ) (scores : DimScores) (b : Bool) (db : Db)
      → IsStored call_id before scores b db
      → IsStored call_id before scores b (store_ratio u analyst call_id r db)
  unfolding merge_raw_metadata
  ratio-IsStored none scores b db s = s
  ratio-IsStored (some r) scores b db s =
      let noted = merge_raw_metadata call_id (("talk_ratio", Json.thousandths r) ∷ []) db in
      let t : IsStored call_id before scores b noted = record {
        own_scores = s.own_scores;
        own_flags = s.own_flags;
        other_scores = s.other_scores;
        other_flags = s.other_flags;
        composites = s.composites;
      } in
      elim (Bool-cases (ltb 750 r)) [
        | inl e ↦ rw e (
            subst (λ x. IsStored call_id before scores x (insert_flag (talk_flag call_id r) noted))
              (or_false b) (flag-IsStored scores b noted (talk_flag call_id r) refl refl t))
        | inr e ↦ rw e t
      ]
