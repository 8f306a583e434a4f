-- ===== src/Analysis/Recompute.antt =====
-- backend/analysis/recompute.py: the stored composite, computed again from the stored scores and
-- the states of the flags.
pub mod Fresh
use callsense.Prelude.{
  ℕ, Bool, not, ◌&&◌, String, Option, none, some, List, [], ◌∷◌, ◌==◌, str_eq, select_where,
  update_where, exists_where,
}
use callsense.Models.Taxonomy.{is_critical, is_dismissed}
use callsense.Models.Tables.{Score, CallScore, Flag, Db}
use callsense.Session.{Session, pure, select, execute, ◌>>=◌, ◌>>◌}
use callsense.Analysis.Rubric.{rubric_version, DimScores, compute_composite}

-- {RubricDimension(r.dimension): r.raw_score for r in dim_rows}: a later row overwrites.
unfoldable pub dim_scores_from : DimScores → List Score → DimScores
dim_scores_from scores [] = scores
dim_scores_from scores (r ∷ rows) = dim_scores_from ((r.dimension, r.raw_score) ∷ scores) rows

abbrev pub is_score_of : ℕ → Score → Bool
is_score_of call_id r = r.call_id == call_id && str_eq r.rubric_version rubric_version

-- A critical flag that has not been dismissed.
abbrev pub caps : ℕ → Flag → Bool
caps call_id f = f.call_id == call_id && is_critical f.severity && not (is_dismissed f.state)

abbrev pub set_composite : ℕ × Bool → CallScore → CallScore
set_composite (composite, capped) r = record r { composite = composite; compliance_capped = capped }

-- The composite that the stored rows give for a call.
unfoldable pub live_composite : Db → ℕ → ℕ × Bool
live_composite db call_id =
    compute_composite (dim_scores_from [] (select_where (is_score_of call_id) db.scores))
      (exists_where (caps call_id) db.flags)

unfoldable pub write_composite : ℕ → ℕ × Bool → Db → Db
write_composite call_id result db = record db {
  call_scores = update_where (λ r. r.call_id == call_id) (set_composite result) db.call_scores;
}

rescore : ℕ → List Score → Session (Option (ℕ × Bool))
rescore call_id [] = pure none
rescore call_id (r ∷ rows) = do
  has_critical ← select (λ db. exists_where (caps call_id) db.flags)
  let result = compute_composite (dim_scores_from [] (r ∷ rows)) has_critical
  execute (write_composite call_id result)
  pure (some result)

unfoldable pub recompute_call_score : ℕ → Session (Option (ℕ × Bool))
unfolding rescore
recompute_call_score call_id = do
  dim_rows ← select (λ db. select_where (is_score_of call_id) db.scores)
  rescore call_id dim_rows
