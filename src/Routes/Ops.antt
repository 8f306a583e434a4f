-- ===== src/Routes/Ops.antt =====
-- backend/app/routes/ops.py: a dead job is put back into the queue.
use callsense.Prelude.{ℕ, not, none, update_where}
use callsense.Models.Taxonomy.{pending, is_dead}
use callsense.Models.Tables.{ProcessingJob, Db}
use callsense.Session.{
  http, Session, Result, select, execute, or_raise, raise_if, transaction, ◌>>=◌, ◌>>◌,
}
use callsense.Pipeline.Queue.{is_job, find_job, with_jobs}

abbrev pub revive : ℕ → ProcessingJob → ProcessingJob
revive now j = record j {
  status = pending;
  attempts = 0;
  last_error = none;
  run_after = now;
  updated_at = now;
}

unfoldable pub requeue_in : ℕ → ℕ → Session (Unit {0})
requeue_in job_id now = do
  found ← select (find_job job_id)
  row ← or_raise found (http 404)
  raise_if (not (is_dead row.status)) (http 409)
  execute (λ db. with_jobs (update_where (is_job job_id) (revive now) db.processing_jobs) db)

unfoldable pub requeue : ℕ → ℕ → Db → Result (Unit {0}) × Db
unfolding requeue_in transaction
requeue job_id now = transaction (requeue_in job_id now)
