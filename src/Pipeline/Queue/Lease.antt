-- ===== src/Pipeline/Queue/Lease.antt =====
-- Several workers on one queue: a job that was claimed is not handed out again while its lease,
-- the visibility timeout, runs.
use mathlib.Core.Path.{subst}
use callsense.Prelude.{
  ℕ, ◌+◌, ◌≤◌, Bool, true, Option, none, some, List, [], ◌∷◌, ◌++◌, ◌≡◌, ◌≢◌, refl, sym, ap, ◌∙◌,
  inl, inr, arith, All, exists_where, update_where, find_where-update_other, find_where-append,
  All-append, Bool-cases, Option-cases,
}
use callsense.Models.Taxonomy.{JobStage, running}
use callsense.Models.Tables.{Text, ProcessingJob, Db}
use callsense.Pipeline.Queue.{
  Settings, JobClaim, visibility_timeout, is_for, find_job, is_job, with_jobs, new_job, enqueue,
  claim, claim_of, start_run, is_claimable, first_due, complete, mark_done, mark_failed, fail,
}
use callsense.Pipeline.Queue.Due.{claim_lem, first_due-found, first_due-holds}
use callsense.Pipeline.Queue.Keys.{
  IsKeyed, enqueue_next_ind, enqueue-IsKeyed, claim-IsKeyed, complete-IsKeyed, fail-IsKeyed,
}

-- What the workers and the ingestion do to the queue, one statement after the other.
pub data Op : Type 0 where
  enqueue_op : ℕ → JobStage → ℕ → Op
  claim_op : ℕ → (ℕ → Bool) → Op
  complete_op : ℕ → Option JobStage → ℕ → Op
  fail_op : JobClaim → Text → ℕ → ℕ → Op

abbrev pub option_list : {A : Type 0} → Option A → List A
option_list none = []
option_list (some a) = a ∷ []

-- The claim that a statement returns, if any, and the database after it.
unfoldable pub apply_op : Settings → Op → Db → Option JobClaim × Db
apply_op settings (enqueue_op call_id stage now) db = (none, enqueue settings call_id stage now db)
apply_op settings (claim_op now locked) db = claim now locked db
apply_op settings (complete_op id nxt now) db = (none, complete settings id nxt now db)
apply_op settings (fail_op job error random now) db = (none, fail settings job error random now db)

-- The claims that a sequence of statements returns.
unfoldable pub claims : Settings → List Op → Db → List JobClaim
unfolding apply_op
claims settings [] db = []
claims settings (op ∷ ops) db =
    let (c, db') = apply_op settings op db in option_list c ++ claims settings ops db'

-- Statements within the lease of a job: no claim is later than the timeout, and the job itself is
-- neither completed nor failed.
abbrev pub WithinLease : ℕ → ℕ → Op → Type 0
WithinLease since id (enqueue_op _ _ _) = Unit
WithinLease since id (claim_op now _) = now ≤ since + visibility_timeout
WithinLease since id (complete_op job _ _) = job ≢ id
WithinLease since id (fail_op job _ _ _) = job.id ≢ id

-- The row of the job is running, and was touched no earlier than its claim.
abbrev Leased : ℕ → ℕ → Db → Type 0
Leased since id db =
    (r : ProcessingJob) × (find_job id db ≡ some r) × (r.status ≡ running) × (since ≤ r.updated_at)

find_job-enqueue :
    (settings : Settings) (call_id : ℕ) (stage : JobStage) (now id : ℕ) (db : Db)
    (r : ProcessingJob)
    → find_job id db ≡ some r
    → find_job id (enqueue settings call_id stage now db) ≡ some r
unfolding enqueue
find_job-enqueue settings call_id stage now id db r found =
    elim (Bool-cases (exists_where (is_for call_id stage) db.processing_jobs)) [
      | inl e ↦ rw e found
      | inr e ↦ rw e (
          find_where-append (is_job id) db.processing_jobs
            (new_job settings call_id stage now db.next.processing_jobs ∷ [])
          ∙ rw found refl)
    ]

find_job-complete :
    (settings : Settings) (other : ℕ) (nxt : Option JobStage) (now id : ℕ) (db : Db)
    (r : ProcessingJob)
    → other ≢ id
    → find_job id db ≡ some r
    → find_job id (complete settings other nxt now db) ≡ some r
unfolding complete
find_job-complete settings other nxt now id db r ne found =
    let after = with_jobs (update_where (is_job other) (mark_done now) db.processing_jobs) db in
    let kept =
      find_where-update_other (λ (j : ProcessingJob). j.id) id other (mark_done now)
        db.processing_jobs ne (λ x. refl)
      ∙ found in
    enqueue_next_ind settings (λ d. find_job id d ≡ some r) nxt (find_job other after) now after
      (λ c stage. find_job-enqueue settings c stage now id after r kept) kept

-- A row that is leased is not due.
not_due :
    (now : ℕ) (locked : ℕ → Bool) (since : ℕ) (r j : ProcessingJob)
    → r ≡ j
    → now ≤ since + visibility_timeout
    → r.status ≡ running
    → since ≤ r.updated_at
    → is_claimable now locked j ≡ true
    → ⊥
not_due now locked since r j same early run late due = ground arith

module _ (settings : Settings) (since id : ℕ) where
  -- A claim within the lease takes another job.
  claim-other :
      (now : ℕ) (locked : ℕ → Bool) (db : Db)
      → now ≤ since + visibility_timeout
      → IsKeyed db
      → Leased since id db
      → All (λ c. c.id ≢ id) (option_list (claim now locked db).0)
        × Leased since id (claim now locked db).1
  unfolding claim
  claim-other now locked db early keyed (r, found, run, late) =
      let p = is_claimable now locked in
      elim (Option-cases (first_due p db.processing_jobs)) [
        | inl e ↦ rw e (tt, (r, found, run, late))
        | inr (j, e) ↦
            let ne : j.id ≢ id = λ same.
              let found' = first_due-found p db.processing_jobs j keyed.distinct e in
              let both : some r ≡ some j =
                sym found ∙ subst (λ k. find_job k db ≡ some j) same found' in
              let row : r ≡ j = cc in
              not_due now locked since r j row early run late
                (first_due-holds p db.processing_jobs j e) in
            rw e (
              (ne, tt),
              (
                r,
                find_where-update_other (λ (j : ProcessingJob). j.id) id j.id (start_run now)
                      db.processing_jobs ne (λ x. refl)
                    ∙ found,
                run,
                late,
              ),
            )
      ]

  op-Leased :
      (op : Op) (db : Db)
      → WithinLease since id op
      → IsKeyed db
      → Leased since id db
      → All (λ c. c.id ≢ id) (option_list (apply_op settings op db).0)
        × Leased since id (apply_op settings op db).1
        × IsKeyed (apply_op settings op db).1
  unfolding apply_op
  op-Leased (enqueue_op call_id stage now) db w keyed (r, found, run, late) = (
    tt,
    (r, find_job-enqueue settings call_id stage now id db r found, run, late),
    enqueue-IsKeyed settings call_id stage now db keyed,
  )
  op-Leased (claim_op now locked) db w keyed lease =
      let (other, lease') = claim-other now locked db w keyed lease in
      (other, lease', claim-IsKeyed now locked db keyed)
  op-Leased (complete_op job nxt now) db w keyed (r, found, run, late) = (
    tt,
    (r, find_job-complete settings job nxt now id db r w found, run, late),
    complete-IsKeyed settings job nxt now db keyed,
  )
  op-Leased (fail_op job error random now) db w keyed (r, found, run, late) = (
    tt,
    (
      r,
      unfold fail in
          find_where-update_other (λ (j : ProcessingJob). j.id) id job.id
            (mark_failed settings job error random now) db.processing_jobs w (λ x. ground arith)
          ∙ found,
      run,
      late,
    ),
    fail-IsKeyed settings job error random now db keyed,
  )

  claims_other :
      (ops : List Op) (db : Db)
      → All (WithinLease since id) ops
      → IsKeyed db
      → Leased since id db
      → All (λ c. c.id ≢ id) (claims settings ops db)
  unfolding claims
  claims_other [] db w keyed lease = tt
  claims_other (op ∷ ops) db w keyed lease =
      let (other, lease', keyed') = op-Leased op db w.0 keyed lease in
      All-append (λ c. c.id ≢ id) (option_list (apply_op settings op db).0) _ other
        (claims_other ops (apply_op settings op db).1 w.1 keyed' lease')

-- Once a claim has returned a job, no claim of a sequence of statements returns that job again, as
-- long as each is made within the visibility timeout of the first and no statement completes or
-- fails the job: two workers never hold one job within its lease.
pub lease_exclusive :
    (settings : Settings) (now : ℕ) (locked : ℕ → Bool) (db : Db) (job : JobClaim) (ops : List Op)
    → IsKeyed db
    → (claim now locked db).0 ≡ some job
    → All (WithinLease now job.id) ops
    → All (λ c. c.id ≢ job.id) (claims settings ops (claim now locked db).1)
lease_exclusive settings now locked db job ops keyed h within =
    elim (claim_lem now locked db keyed.distinct) [
      | inl (e, _) ↦ absurd (ground arith)
      | inr (j, e, found, due, first, after) ↦
          let same : claim_of j ≡ job = ground arith in
          let id : j.id ≡ job.id = ap (λ (c : JobClaim). c.id) same in
          claims_other settings now job.id ops (claim now locked db).1 within
            (claim-IsKeyed now locked db keyed)
            (
              start_run now j,
              subst (λ k. find_job k (claim now locked db).1 ≡ some (start_run now j)) id after,
              refl,
              omega arith,
            )
    ]
