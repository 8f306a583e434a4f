-- ===== src/Pipeline/Queue.antt =====
-- backend/pipeline/queue.py: the job table as a queue. A time is a number of microseconds.
pub mod Due
pub mod Keys
pub mod Backoff
pub mod Lease
pub mod Outcomes
use callsense.Prelude.{
  ℕ, zero, suc, ◌+◌, ◌-◌, ◌*◌, ◌^◌, Bool, true, false, not, ◌&&◌, ◌||◌, Option, none, some, List,
  [], ◌∷◌, ◌++◌, ◌==◌, ltb, leb, if◌then◌else◌, take, find_where, update_where, exists_where,
}
use callsense.Double.{round_div}
use callsense.Models.Taxonomy.{
  JobStage, JobStatus, pending, running, done, dead, is_pending, is_running, stage_eq,
}
use callsense.Models.Tables.{Text, ProcessingJob, Sequences, Db}

-- The settings that the queue reads; the base of the backoff in microseconds.
pub record Settings : Type 0 where
  pub job_max_attempts : ℕ
  pub job_backoff_base : ℕ

abbrev pub second : ℕ
second = 1_000_000

abbrev pub visibility_timeout : ℕ
visibility_timeout = 300 * second

pub record JobClaim : Type 0 where
  pub id : ℕ
  pub call_id : ℕ
  pub stage : JobStage
  pub attempts : ℕ
  pub max_attempts : ℕ

-- base * 2 ** max(0, attempt - 1) * random.uniform(0.5, 1.5), where `random.random()` gives
-- `random` / 2^53: the exact product, to the nearest microsecond, where the code multiplies doubles.
unfoldable pub backoff : Settings → ℕ → ℕ → ℕ
backoff settings attempt random =
    round_div (settings.job_backoff_base * 2 ^ (attempt - 1) * (2 ^ 52 + random)) (2 ^ 53)

abbrev pub is_job : ℕ → ProcessingJob → Bool
is_job id j = j.id == id

abbrev pub is_for : ℕ → JobStage → ProcessingJob → Bool
is_for call_id stage j = j.call_id == call_id && stage_eq j.stage stage

abbrev pub find_job : ℕ → Db → Option ProcessingJob
find_job id db = find_where (is_job id) db.processing_jobs

abbrev pub with_jobs : List ProcessingJob → Db → Db
with_jobs jobs db = record db { processing_jobs = jobs }

abbrev pub new_job : Settings → ℕ → JobStage → ℕ → ℕ → ProcessingJob
new_job settings call_id stage now id = record {
  id = id;
  call_id = call_id;
  stage = stage;
  status = pending;
  attempts = 0;
  max_attempts = settings.job_max_attempts;
  last_error = none;
  run_after = now;
  updated_at = now;
}

-- ON CONFLICT (call_id, stage) DO NOTHING; the sequence has given its value either way.
unfoldable pub enqueue : Settings → ℕ → JobStage → ℕ → Db → Db
enqueue settings call_id stage now db = record db {
  processing_jobs =
      if exists_where (is_for call_id stage) db.processing_jobs
      then db.processing_jobs
      else db.processing_jobs ++ new_job settings call_id stage now db.next.processing_jobs ∷ [];
  next = record db.next { processing_jobs = suc db.next.processing_jobs };
}

-- The WHERE of the claim, with the rows that other transactions have locked.
abbrev pub is_claimable : ℕ → (ℕ → Bool) → ProcessingJob → Bool
is_claimable now locked j =
    (is_pending j.status && leb j.run_after now
      || is_running j.status && ltb (j.updated_at + visibility_timeout) now)
    && not (locked j.id)

abbrev earlier : ProcessingJob → Option ProcessingJob → Option ProcessingJob
earlier j none = some j
earlier j (some k) = if leb j.run_after k.run_after then some j else some k

-- ORDER BY run_after LIMIT 1; of jobs that are due at the same time the first in the table.
unfoldable pub first_due : (ProcessingJob → Bool) → List ProcessingJob → Option ProcessingJob
first_due p [] = none
first_due p (j ∷ jobs) = let rest = first_due p jobs in if p j then earlier j rest else rest

abbrev pub start_run : ℕ → ProcessingJob → ProcessingJob
start_run now j = record j { status = running; attempts = j.attempts + 1; updated_at = now }

abbrev pub claim_of : ProcessingJob → JobClaim
claim_of j = record {
  id = j.id;
  call_id = j.call_id;
  stage = j.stage;
  attempts = j.attempts + 1;
  max_attempts = j.max_attempts;
}

abbrev pub claim_row : ℕ → Option ProcessingJob → Db → Option JobClaim × Db
claim_row now none db = (none, db)
claim_row now (some j) db = (
  some (claim_of j),
  with_jobs (update_where (is_job j.id) (start_run now) db.processing_jobs) db,
)

unfoldable pub claim : ℕ → (ℕ → Bool) → Db → Option JobClaim × Db
claim now locked db = claim_row now (first_due (is_claimable now locked) db.processing_jobs) db

abbrev pub mark_done : ℕ → ProcessingJob → ProcessingJob
mark_done now j = record j { status = done; last_error = none; updated_at = now }

abbrev pub enqueue_next : Settings → Option JobStage → Option ProcessingJob → ℕ → Db → Db
enqueue_next settings none row now db = db
enqueue_next settings (some stage) none now db = db
enqueue_next settings (some stage) (some j) now db = enqueue settings j.call_id stage now db

unfoldable pub complete : Settings → ℕ → Option JobStage → ℕ → Db → Db
complete settings job_id next_stage now db =
    let after = with_jobs (update_where (is_job job_id) (mark_done now) db.processing_jobs) db in
    enqueue_next settings next_stage (find_job job_id after) now after

abbrev pub mark_dead : Text → ℕ → ProcessingJob → ProcessingJob
mark_dead error now j = record j {
  status = dead;
  last_error = some (take 2000 error);
  updated_at = now;
}

abbrev pub mark_retry : Text → ℕ → ℕ → ProcessingJob → ProcessingJob
mark_retry error delay now j = record j {
  status = pending;
  last_error = some (take 2000 error);
  run_after = now + delay;
  updated_at = now;
}

-- Whether to give up is read from the claim, not from the row.
abbrev pub mark_failed : Settings → JobClaim → Text → ℕ → ℕ → ProcessingJob → ProcessingJob
mark_failed settings job error random now =
    if leb job.max_attempts job.attempts
    then mark_dead error now
    else mark_retry error (backoff settings job.attempts random) now

unfoldable pub fail : Settings → JobClaim → Text → ℕ → ℕ → Db → Db
fail settings job error random now db =
    with_jobs
      (update_where (is_job job.id) (mark_failed settings job error random now) db.processing_jobs)
      db
