-- ===== src/Pipeline/Worker/Retries.antt =====
-- A worker alone on the queue: how often a job is tried.
use callsense.Prelude.{
  ℕ, zero, suc, ◌+◌, ◌≤◌, ◌<◌, Bool, true, false, Option, none, some, List, [], ◌∷◌, ◌≡◌, ◌≢◌, refl,
  ap, inl, inr, arith, ==_iff, leb, All, All-zip, All-append, All-update_where_split,
  All-only_found, All-find_where, ◌⊎◌, Distinct, exists_where, update_where, Bool-cases,
  Option-cases,
}
use callsense.Models.Taxonomy.{JobStage, JobStatus, pending, running, done, failed, dead}
use callsense.Models.Tables.{Text, ProcessingJob, Db}
use callsense.Session.{Error, ok, err, Session, rollback, Result-cases}
use callsense.Pipeline.Queue.{
  Settings, JobClaim, find_job, is_job, is_for, with_jobs, new_job, enqueue, claim, claim_of,
  start_run, is_claimable, first_due, complete, mark_done, mark_failed, fail,
}
use callsense.Pipeline.Queue.Due.{first_due-found, first_due-holds}
use callsense.Pipeline.Queue.Keys.{
  IsKeyed, IsKeyed-same, enqueue_next_ind, claim-IsKeyed, complete-IsKeyed, fail-IsKeyed,
}
use callsense.Pipeline.Transitions.{next_stage}
use callsense.Pipeline.Worker.{Moment, finish, run_claimed, process_one, run_until_idle}

-- A job that no worker holds: it may be tried again only while attempts are left, and it is dead
-- exactly when they are used up by failures.
abbrev WithinBudget : JobStatus → ℕ → ℕ → Type 0
WithinBudget pending attempts max = attempts < max
WithinBudget done attempts max = attempts ≤ max
WithinBudget dead attempts max = attempts ≡ max
WithinBudget running attempts max = ⊥
WithinBudget failed attempts max = ⊥

abbrev pub IsSettled : ProcessingJob → Type 0
IsSettled j = WithinBudget j.status j.attempts j.max_attempts

-- The job that is held, and the others.
abbrev pub Held : ProcessingJob → ProcessingJob → Type 0
Held held j = (j.id ≡ held.id → j ≡ held) × (j.id ≢ held.id → IsSettled j)

pub claim-Held :
    (now : ℕ) (jobs : List ProcessingJob) (j : ProcessingJob)
    → Distinct (λ (k : ProcessingJob). k.id) jobs
    → All (λ k. k.id ≡ j.id → k ≡ j) jobs
    → All IsSettled jobs
    → All (Held (start_run now j)) (update_where (is_job j.id) (start_run now) jobs)
claim-Held now jobs j d only h =
    All-update_where_split (λ k. (k.id ≡ j.id → k ≡ j) × IsSettled k) (Held (start_run now j))
      (is_job j.id) (start_run now) jobs
      (λ x t p. (
        λ _. ap (start_run now) (p.0 ((==_iff x.id j.id).0 t)),
        λ ne. absurd (ne ((==_iff x.id j.id).0 t)),
      ))
      (λ x t p. (λ e. absurd (ground arith), λ _. p.1))
      (All-zip (λ k. k.id ≡ j.id → k ≡ j) IsSettled jobs only h)

mark_done-IsSettled :
    (now : ℕ) (jobs : List ProcessingJob) (held : ProcessingJob)
    → held.attempts ≤ held.max_attempts
    → All (Held held) jobs
    → All IsSettled (update_where (is_job held.id) (mark_done now) jobs)
mark_done-IsSettled now jobs held b h =
    All-update_where_split (Held held) IsSettled (is_job held.id) (mark_done now) jobs
      (λ x t p. omega (
        arith,
        ap (λ (k : ProcessingJob). k.attempts) (p.0 ((==_iff x.id held.id).0 t)),
        ap (λ (k : ProcessingJob). k.max_attempts) (p.0 ((==_iff x.id held.id).0 t)),
      ))
      (λ x t p. p.1 (λ e. ground arith)) h

enqueue-IsSettled :
    (settings : Settings) (call_id : ℕ) (stage : JobStage) (now : ℕ) (db : Db)
    → 0 < settings.job_max_attempts
    → All IsSettled db.processing_jobs
    → All IsSettled (enqueue settings call_id stage now db).processing_jobs
unfolding enqueue
enqueue-IsSettled settings call_id stage now db pos h =
    elim (Bool-cases (exists_where (is_for call_id stage) db.processing_jobs)) [
      | inl e ↦ rw e h
      | inr e ↦ rw e (
          All-append IsSettled db.processing_jobs
            (new_job settings call_id stage now db.next.processing_jobs ∷ []) h (pos, tt))
    ]

complete-IsSettled :
    (settings : Settings) (held : ProcessingJob) (nxt : Option JobStage) (now : ℕ) (db : Db)
    → 0 < settings.job_max_attempts
    → held.attempts ≤ held.max_attempts
    → All (Held held) db.processing_jobs
    → All IsSettled (complete settings held.id nxt now db).processing_jobs
unfolding complete
complete-IsSettled settings held nxt now db pos b h =
    let after = with_jobs (update_where (is_job held.id) (mark_done now) db.processing_jobs) db in
    let marked = mark_done-IsSettled now db.processing_jobs held b h in
    enqueue_next_ind settings (λ d. All IsSettled d.processing_jobs) nxt (find_job held.id after)
      now after (λ c stage. enqueue-IsSettled settings c stage now after pos marked) marked

fail-IsSettled :
    (settings : Settings) (j : ProcessingJob) (start : ℕ) (error : Text) (random now : ℕ) (db : Db)
    → j.attempts < j.max_attempts
    → All (Held (start_run start j)) db.processing_jobs
    → All IsSettled (fail settings (claim_of j) error random now db).processing_jobs
unfolding fail
fail-IsSettled settings j start error random now db b h =
    All-update_where_split (Held (start_run start j)) IsSettled (is_job j.id)
      (mark_failed settings (claim_of j) error random now) db.processing_jobs
      (λ x t p. failed_row x (p.0 ((==_iff x.id j.id).0 t))) (λ x t p. p.1 (λ e. ground arith)) h
  where
    failed_row :
        (x : ProcessingJob)
        → x ≡ start_run start j
        → IsSettled (mark_failed settings (claim_of j) error random now x)
    failed_row x e = elim (Bool-cases (leb j.max_attempts (j.attempts + 1))) [
      | inl t ↦ rw (e, t) (ground arith)
      | inr t ↦ rw (e, t) (ground arith)
    ]

-- A settled job that is due is pending, so it has attempts left.
pub attempts_left :
    (now : ℕ) (locked : ℕ → Bool) (j : ProcessingJob)
    → IsSettled j
    → is_claimable now locked j ≡ true
    → j.attempts < j.max_attempts
attempts_left now locked j settled due = ground arith

module _ (settings : Settings) (describe : Error → Text)
    (run_stage : JobStage → ℕ → Session (Unit {0})) where
  -- A job that was claimed is completed on what its stage left, or failed on what was before.
  pub finish_cases :
      (job : JobClaim) (m : Moment) (db : Db)
      → ((e : Error) × ((run_stage job.stage job.call_id db).0 ≡ err e)
          × (finish settings describe run_stage job m db
              ≡ fail settings job
                  (describe e)
                  m.random
                  m.ended_at
                  (rollback db (run_stage job.stage job.call_id db).1)))
        ⊎ (((run_stage job.stage job.call_id db).0 ≡ ok tt)
            × (finish settings describe run_stage job m db ≡ (
                let after = (run_stage job.stage job.call_id db).1 in
                complete settings job.id
                  (next_stage job.stage job.call_id after)
                  m.ended_at
                  after)))
  unfolding finish
  finish_cases job m db = elim (Result-cases (run_stage job.stage job.call_id db).0) [
    | inl (e, h) ↦ inl (e, h, ground arith)
    | inr (tt, h) ↦ inr (h, ground arith)
  ]

module _ (settings : Settings) (describe : Error → Text)
    (run_stage : JobStage → ℕ → Session (Unit {0}))
    (keeps_jobs : (stage : JobStage) (call_id : ℕ) (db : Db)
      → (run_stage stage call_id db).1.processing_jobs ≡ db.processing_jobs)
    (keeps_sequence : (stage : JobStage) (call_id : ℕ) (db : Db)
      → (run_stage stage call_id db).1.next.processing_jobs ≡ db.next.processing_jobs)
    (some_attempts : 0 < settings.job_max_attempts) where
  finish-IsSettled :
      (j : ProcessingJob) (m : Moment) (db : Db)
      → j.attempts < j.max_attempts
      → All (Held (start_run m.claimed_at j)) db.processing_jobs
      → All IsSettled (finish settings describe run_stage (claim_of j) m db).processing_jobs
  finish-IsSettled j m db b h =
      let after = (run_stage j.stage j.call_id db).1 in
      elim (finish_cases settings describe run_stage (claim_of j) m db) [
        | inl (e, _, same) ↦ rw same (
            fail-IsSettled settings j m.claimed_at (describe e) m.random m.ended_at
              (rollback db after) b (unfold rollback in h))
        | inr (_, same) ↦ rw same (
            complete-IsSettled settings (start_run m.claimed_at j)
              (next_stage j.stage j.call_id after) m.ended_at after some_attempts (omega arith)
              (rw (keeps_jobs j.stage j.call_id db) h))
      ]

  pub process_one-IsSettled :
      (m : Moment) (db : Db)
      → Distinct (λ (j : ProcessingJob). j.id) db.processing_jobs
      → All IsSettled db.processing_jobs
      → All IsSettled (process_one settings describe run_stage m db).1.processing_jobs
  unfolding process_one claim
  process_one-IsSettled m db d h =
      let p = is_claimable m.claimed_at m.locked in
      elim (Option-cases (first_due p db.processing_jobs)) [
        | inl e ↦ rw e h
        | inr (j, e) ↦
            let found = first_due-found p db.processing_jobs j d e in
            let settled = All-find_where IsSettled (is_job j.id) db.processing_jobs j h found in
            let due = first_due-holds p db.processing_jobs j e in
            rw e (
              finish-IsSettled j m
                (with_jobs (update_where (is_job j.id) (start_run m.claimed_at) db.processing_jobs)
                  db)
                (attempts_left m.claimed_at m.locked j settled due)
                (claim-Held m.claimed_at db.processing_jobs j d
                  (All-only_found (λ (k : ProcessingJob). k.id) j.id db.processing_jobs j d found)
                  h))
      ]

  finish-IsKeyed :
      (job : JobClaim) (m : Moment) (db : Db)
      → IsKeyed db
      → IsKeyed (finish settings describe run_stage job m db)
  finish-IsKeyed job m db v =
      let after = (run_stage job.stage job.call_id db).1 in
      elim (finish_cases settings describe run_stage job m db) [
        | inl (e, _, same) ↦ rw same (
            fail-IsKeyed settings job (describe e) m.random m.ended_at (rollback db after) (
              unfold rollback in
              IsKeyed-same db (rollback db after) refl (keeps_sequence job.stage job.call_id db) v))
        | inr (_, same) ↦ rw same (
            complete-IsKeyed settings job.id (next_stage job.stage job.call_id after) m.ended_at
              after
              (IsKeyed-same db after (keeps_jobs job.stage job.call_id db)
                (keeps_sequence job.stage job.call_id db) v))
      ]

  pub process_one-IsKeyed :
      (m : Moment) (db : Db) → IsKeyed db → IsKeyed (process_one settings describe run_stage m db).1
  unfolding process_one
  process_one-IsKeyed m db v =
      let (job, claimed) = claim m.claimed_at m.locked db in
      go job claimed (claim-IsKeyed m.claimed_at m.locked db v)
    where
      go :
          (job : Option JobClaim) (db' : Db)
          → IsKeyed db'
          → IsKeyed (run_claimed settings describe run_stage m (job, db')).1
      go none db' w = w
      go (some job) db' w = finish-IsKeyed job m db' w

  -- Let each setting allow an attempt, and let the stages leave the job table and its sequence
  -- alone. A worker that is alone on a queue with distinct keys, none of whose jobs is running,
  -- leaves, after any number of rounds, distinct keys, no two jobs for one call and stage, no job
  -- running, and every job within its budget: a pending job has been tried less often than
  -- `max_attempts`, a dead one exactly that often.
  pub run_until_idle-IsSettled :
      (n : ℕ) (moments : ℕ → Moment) (handled : ℕ) (db : Db)
      → IsKeyed db
      → All IsSettled db.processing_jobs
      → let after = (run_until_idle settings describe run_stage n moments handled db).1 in
        IsKeyed after × All IsSettled after.processing_jobs
  unfolding run_until_idle
  run_until_idle-IsSettled zero moments handled db v h = (v, h)
  run_until_idle-IsSettled (suc n) moments handled db v h =
      let (busy, db') = process_one settings describe run_stage (moments n) db in
      go busy db' (process_one-IsKeyed (moments n) db v)
        (process_one-IsSettled (moments n) db v.distinct h)
        (run_until_idle-IsSettled n moments (handled + 1) db')
    where
      go :
          (busy : Bool) (db' : Db)
          → IsKeyed db'
          → All IsSettled db'.processing_jobs
          → (IsKeyed db'
              → All IsSettled db'.processing_jobs
              → let after =
                  (run_until_idle settings describe run_stage n moments (handled + 1) db').1 in
                IsKeyed after × All IsSettled after.processing_jobs)
          → let after =
              (elim busy as (λ _. ℕ × Db) [
                | true ↦ run_until_idle settings describe run_stage n moments (handled + 1) db'
                | false ↦ (handled, db')
              ]).1 in
            IsKeyed after × All IsSettled after.processing_jobs
      go true db' w k rec = rec w k
      go false db' w k rec = (w, k)
