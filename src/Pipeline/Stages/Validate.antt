-- ===== src/Pipeline/Stages/Validate.antt =====
-- backend/pipeline/stages/validate.py: is the analysis complete?
pub mod Outcome
use callsense.Prelude.{ℕ, Bool, ◌&&◌, if◌then◌else◌, ◌==◌, exists_where, count_where, length}
use callsense.Models.Taxonomy.{CallStatus, done, needs_review}
use callsense.Models.Tables.{Score, CallScore, Db}
use callsense.Session.{Session, select, execute, ◌>>=◌, ◌>>◌}
use callsense.Analysis.Rubric.{dimension_weights}
use callsense.Pipeline.Stages.Base.{set_call_status}

unfoldable pub run : ℕ → Session (Unit {0})
run call_id = do
  has_composite ←
      select (λ db. exists_where (λ (r : CallScore). r.call_id == call_id) db.call_scores)
  n_dims ← select (λ db. count_where (λ (r : Score). r.call_id == call_id) db.scores)
  let complete = has_composite && n_dims == length dimension_weights
  execute (set_call_status call_id (if complete then CallStatus.done else needs_review))
