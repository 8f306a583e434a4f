-- ===== src/Pipeline/Worker/Effort.antt =====
-- How much work a queue still holds: a bound on the rounds a worker can be kept busy.
use callsense.Prelude.{
  ℕ, ◌+◌, ◌-◌, ◌*◌, ◌≤◌, Bool, true, Option, none, some, List, [], ◌∷◌, ◌++◌, ◌≡◌, inl, inr, arith,
  leb, All, find_where, update_where, exists_where, Bool-cases, Option-cases,
}
use native.Mathlib.Nat.{mul-le-mul_left}
use callsense.Models.Taxonomy.{
  JobStage, transcribe, diarise, redact, classify, analyse, validate, JobStatus, pending, running,
  done, failed, dead,
}
use callsense.Models.Tables.{Text, ProcessingJob, Db}
use callsense.Pipeline.Queue.{
  Settings, JobClaim, is_for, new_job, enqueue, enqueue_next, mark_failed,
}
use callsense.Pipeline.Transitions.{next_stage, next_in}

-- The stages after a stage.
abbrev pub stages_after : JobStage → ℕ
stages_after transcribe = 5
stages_after diarise = 4
stages_after redact = 3
stages_after classify = 2
stages_after analyse = 1
stages_after validate = 0

-- The runs a job can still start, and those that its later stages can.
abbrev effort_in : Settings → JobStatus → ℕ → ℕ → JobStage → ℕ
effort_in settings pending attempts max stage =
    (max - attempts) + settings.job_max_attempts * stages_after stage
effort_in settings running attempts max stage =
    (max - attempts) + settings.job_max_attempts * stages_after stage
effort_in settings done attempts max stage = 0
effort_in settings failed attempts max stage = 0
effort_in settings dead attempts max stage = 0

abbrev pub effort : Settings → ProcessingJob → ℕ
effort settings j = effort_in settings j.status j.attempts j.max_attempts j.stage

abbrev pub total_effort : Settings → List ProcessingJob → ℕ
total_effort settings [] = 0
total_effort settings (j ∷ jobs) = effort settings j + total_effort settings jobs

module _ (settings : Settings) where
  pub total_effort-append :
      (jobs more : List ProcessingJob)
      → total_effort settings (jobs ++ more)
        ≡ total_effort settings jobs + total_effort settings more
  total_effort-append [] more = omega arith
  total_effort-append (j ∷ jobs) more = omega (arith, total_effort-append jobs more)

  -- An UPDATE of a row that is found once changes the total by what it changes of the row.
  total_effort-update_le :
      (p : ProcessingJob → Bool) (f : ProcessingJob → ProcessingJob) (jobs : List ProcessingJob)
      → All (λ k. p k ≡ true → effort settings (f k) ≤ effort settings k) jobs
      → total_effort settings (update_where p f jobs) ≤ total_effort settings jobs
  unfolding update_where
  total_effort-update_le p f [] h = omega arith
  total_effort-update_le p f (j ∷ jobs) h =
      let rest = total_effort-update_le p f jobs h.1 in
      elim (Bool-cases (p j)) [
        | inl e ↦ rw e (omega (arith, rest, h.0 e))
        | inr e ↦ rw e (omega (arith, rest))
      ]

  pub total_effort-update :
      (p : ProcessingJob → Bool) (f : ProcessingJob → ProcessingJob) (jobs : List ProcessingJob)
      (j : ProcessingJob) (c : ℕ)
      → All (λ k. p k ≡ true → effort settings (f k) + c ≤ effort settings k) jobs
      → find_where p jobs ≡ some j
      → total_effort settings (update_where p f jobs) + c ≤ total_effort settings jobs
  unfolding update_where find_where
  total_effort-update p f [] j c h found = cc
  total_effort-update p f (k ∷ jobs) j c h found = elim (Bool-cases (p k)) [
    | inl e ↦
        let rest = total_effort-update_le p f jobs (weaken jobs h.1) in
        rw e (omega (arith, rest, h.0 e))
    | inr e ↦
        let rest = total_effort-update p f jobs j c h.1 (ground arith) in rw e (omega (arith, rest))
  ]
    where
      weaken :
          (xs : List ProcessingJob)
          → All (λ k. p k ≡ true → effort settings (f k) + c ≤ effort settings k) xs
          → All (λ k. p k ≡ true → effort settings (f k) ≤ effort settings k) xs
      weaken [] a = tt
      weaken (x ∷ xs) a = ((λ e. omega (arith, a.0 e)), weaken xs a.1)

  -- A stage that follows has fewer stages after it.
  pub stages_after-next :
      (stage nxt : JobStage) (call_id : ℕ) (db : Db)
      → next_stage stage call_id db ≡ some nxt
      → stages_after nxt + 1 ≤ stages_after stage
  unfolding next_stage next_in
  stages_after-next stage nxt call_id db h = ground arith

  -- What a failure leaves of a running job is no more.
  pub effort-mark_failed :
      (job : JobClaim) (error : Text) (random now : ℕ) (k : ProcessingJob)
      → k.status ≡ running
      → effort settings (mark_failed settings job error random now k) ≤ effort settings k
  effort-mark_failed job error random now k e =
      elim (Bool-cases (leb job.max_attempts job.attempts)) [
        | inl t ↦ rw t (omega arith)
        | inr t ↦ rw (t, e) (omega arith)
      ]

  pub effort-enqueue :
      (call_id : ℕ) (stage : JobStage) (now : ℕ) (db : Db)
      → total_effort settings (enqueue settings call_id stage now db).processing_jobs
        ≤ total_effort settings db.processing_jobs
          + settings.job_max_attempts * (1 + stages_after stage)
  unfolding enqueue
  effort-enqueue call_id stage now db =
      let row = new_job settings call_id stage now db.next.processing_jobs in
      elim (Bool-cases (exists_where (is_for call_id stage) db.processing_jobs)) [
        | inl e ↦ rw e (omega arith)
        | inr e ↦ rw (e, total_effort-append db.processing_jobs (row ∷ [])) (omega arith)
      ]

  unfoldable pub next_effort : Option JobStage → ℕ
  next_effort none = 0
  next_effort (some stage) = settings.job_max_attempts * (1 + stages_after stage)

  pub effort-enqueue_next :
      (nxt : Option JobStage) (row : Option ProcessingJob) (now : ℕ) (db : Db)
      → total_effort settings (enqueue_next settings nxt row now db).processing_jobs
        ≤ total_effort settings db.processing_jobs + next_effort nxt
  unfolding next_effort
  effort-enqueue_next none row now db = omega arith
  effort-enqueue_next (some stage) none now db = omega arith
  effort-enqueue_next (some stage) (some j) now db = effort-enqueue j.call_id stage now db

  pub next_effort_le :
      (stage : JobStage) (call_id : ℕ) (db : Db)
      → next_effort (next_stage stage call_id db) ≤ settings.job_max_attempts * stages_after stage
  unfolding next_effort
  next_effort_le stage call_id db = elim (Option-cases (next_stage stage call_id db)) [
    | inl e ↦ rw e (omega arith)
    | inr (t, e) ↦ rw e (
        let later = stages_after-next stage t call_id db e in
        mul-le-mul_left settings.job_max_attempts (omega (arith, later)))
  ]
