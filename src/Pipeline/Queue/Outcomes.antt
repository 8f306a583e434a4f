-- ===== src/Pipeline/Queue/Outcomes.antt =====
-- What becomes of the row of a job that is completed or failed.
use callsense.Prelude.{
  ℕ, ◌+◌, ◌≤◌, ◌<◌, Bool, true, false, Option, none, some, List, [], ◌∷◌, ◌++◌, ◌≡◌, refl, ap, ◌∙◌,
  ◌⊎◌, inl, inr, arith, ◌==◌, ==_refl, if◌then◌else◌, leb, leb→le, length, length-take_le,
  find_where, exists_where, update_where, find_where-update, find_where-holds, find_where-append,
  exists_where-append, Bool-cases, All,
}
use callsense.Models.Taxonomy.{JobStage, pending, done, dead, stage_eq_refl}
use callsense.Models.Tables.{Text, ProcessingJob, Db}
use callsense.Pipeline.Queue.Lease.{option_list}
use callsense.Pipeline.Queue.{
  Settings, JobClaim, backoff, is_for, find_job, is_job, with_jobs, new_job, enqueue, enqueue_next,
  complete, mark_done, mark_failed, mark_dead, mark_retry, fail,
}

-- The row of a job after an UPDATE of that job that keeps its id.
pub found_update :
    (id : ℕ) (f : ProcessingJob → ProcessingJob) (jobs : List ProcessingJob) (j : ProcessingJob)
    → ((k : ProcessingJob) → (f k).id ≡ k.id)
    → find_where (is_job id) jobs ≡ some j
    → find_where (is_job id) (update_where (is_job id) f jobs) ≡ some (f j)
found_update id f jobs j keeps found =
    find_where-update (is_job id) (is_job id) f jobs (λ k. ap (λ n. n == id) (keeps k))
    ∙ rw found (rw (find_where-holds (is_job id) jobs j found) refl)

-- An error text of at most 2000 characters.
abbrev pub IsShort : Option Text → Type 0
IsShort none = ⊥
IsShort (some t) = length t ≤ 2000

mark_failed_id :
    (settings : Settings) (job : JobClaim) (error : Text) (random now : ℕ) (k : ProcessingJob)
    → (mark_failed settings job error random now k).id ≡ k.id
mark_failed_id settings job error random now k =
    elim (Bool-cases (leb job.max_attempts job.attempts)) [ inl e ↦ rw e | inr e ↦ rw e ]

-- A job of the table that failed has a short error text, and is dead, for good, once its claim used
-- up the attempts; before that it is pending again, after the backoff.
pub fail_lem :
    (settings : Settings) (job : JobClaim) (error : Text) (random now : ℕ) (db : Db)
    (j : ProcessingJob)
    → find_job job.id db ≡ some j
    → (after : ProcessingJob) × (find_job job.id (fail settings job error random now db)
        ≡ some after)
      × IsShort after.last_error
      × (((job.max_attempts ≤ job.attempts) × (after.status ≡ dead))
          ⊎ ((job.attempts < job.max_attempts)
              × (after.status ≡ pending)
              × (after.run_after ≡ now + backoff settings job.attempts random)))
unfolding fail
fail_lem settings job error random now db j found =
    elim (Bool-cases (leb job.max_attempts job.attempts)) [
      | inl e ↦
          let row = mark_dead error now j in
          (
            row,
            found_update job.id (mark_failed settings job error random now) db.processing_jobs j
                  (mark_failed_id settings job error random now) found
                ∙ rw e,
            length-take_le 2000 error,
            inl (leb→le job.max_attempts job.attempts e, refl),
          )
      | inr e ↦
          let row = mark_retry error (backoff settings job.attempts random) now j in
          (
            row,
            found_update job.id (mark_failed settings job error random now) db.processing_jobs j
                  (mark_failed_id settings job error random now) found
                ∙ rw e,
            length-take_le 2000 error,
            inr (ground arith, refl, refl),
          )
    ]

pub enqueue_exists :
    (settings : Settings) (call_id : ℕ) (stage : JobStage) (now : ℕ) (db : Db)
    → exists_where (is_for call_id stage) (enqueue settings call_id stage now db).processing_jobs
      ≡ true
unfolding enqueue exists_where
enqueue_exists settings call_id stage now db =
    go (exists_where (is_for call_id stage) db.processing_jobs) refl
  where
    row : ProcessingJob
    row = new_job settings call_id stage now db.next.processing_jobs

    go :
        (b : Bool)
        → exists_where (is_for call_id stage) db.processing_jobs ≡ b
        → exists_where
            (is_for call_id stage)
            (if b then db.processing_jobs else db.processing_jobs ++ row ∷ [])
          ≡ true
    go true e = e
    go false e =
        exists_where-append (is_for call_id stage) db.processing_jobs (row ∷ [])
        ∙ rw (e, ==_refl call_id, stage_eq_refl stage)

enqueue_found :
    (settings : Settings) (call_id : ℕ) (stage : JobStage) (now id : ℕ) (db : Db)
    (j : ProcessingJob)
    → find_job id db ≡ some j
    → find_job id (enqueue settings call_id stage now db) ≡ some j
unfolding enqueue
enqueue_found settings call_id stage now id db j found =
    go (exists_where (is_for call_id stage) db.processing_jobs)
  where
    row : ProcessingJob
    row = new_job settings call_id stage now db.next.processing_jobs

    go :
        (b : Bool)
        → find_where (is_job id) (if b then db.processing_jobs else db.processing_jobs ++ row ∷ [])
          ≡ some j
    go true = found
    go false = find_where-append (is_job id) db.processing_jobs (row ∷ []) ∙ rw found

-- A job of the table that is completed is done, without an error; and if there is a next stage, the
-- table has a job for it and the same call.
pub complete_lem :
    (settings : Settings) (id : ℕ) (nxt : Option JobStage) (now : ℕ) (db : Db) (j : ProcessingJob)
    → find_job id db ≡ some j
    → let db' = complete settings id nxt now db in
      (find_job id db' ≡ some (record j { status = done; last_error = none; updated_at = now }))
      × All
          (λ stage. exists_where (is_for j.call_id stage) db'.processing_jobs ≡ true)
          (option_list nxt)
unfolding complete
complete_lem settings id nxt now db j found = go nxt
  where
    row : ProcessingJob
    row = mark_done now j

    db' : Db
    db' = with_jobs (update_where (is_job id) (mark_done now) db.processing_jobs) db

    held : find_job id db' ≡ some row
    held = found_update id (mark_done now) db.processing_jobs j (λ k. refl) found

    go :
        (nxt : Option JobStage)
        → let end = enqueue_next settings nxt (find_job id db') now db' in
          (find_job id end ≡ some row)
          × All
              (λ stage. exists_where (is_for j.call_id stage) end.processing_jobs ≡ true)
              (option_list nxt)
    go none = (held, tt)
    go (some t) = rw held (
      enqueue_found settings j.call_id t now id db' row held,
      (enqueue_exists settings j.call_id t now db', tt),
    )
