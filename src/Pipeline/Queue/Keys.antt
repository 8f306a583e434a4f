-- ===== src/Pipeline/Queue/Keys.antt =====
-- The keys of the job table: ids from the sequence, and one job for each call and stage.
use callsense.Prelude.{
  ℕ, suc, ◌≤◌, Bool, false, Option, none, some, List, [], ◌∷◌, ◌++◌, ◌≡◌, refl, inl, inr, arith,
  All, All-append, All-update_where, exists_where, exists_where-All, update_where, Bool-cases,
  Option-cases, Distinct, Distinct-snoc, Distinct-update_where, Below, Below-suc,
}
use callsense.Models.Taxonomy.{JobStage}
use callsense.Models.Tables.{Text, ProcessingJob, Db}
use callsense.Pipeline.Queue.{
  Settings, JobClaim, is_for, find_job, is_job, with_jobs, new_job, enqueue, first_due,
  is_claimable, claim, start_run, enqueue_next, complete, mark_done, mark_failed, fail,
}

-- No two jobs are for the same call and stage.
abbrev pub OnePerStage : List ProcessingJob → Type 0
OnePerStage [] = Unit
OnePerStage (j ∷ jobs) = All (λ k. is_for j.call_id j.stage k ≡ false) jobs × OnePerStage jobs

pub record IsKeyed (db : Db) : Type 0 where
  pub distinct : Distinct (λ (j : ProcessingJob). j.id) db.processing_jobs
  pub below : Below (λ (j : ProcessingJob). j.id) db.next.processing_jobs db.processing_jobs
  pub one_per_stage : OnePerStage db.processing_jobs

-- The keys are a matter of the job table and its sequence.
pub IsKeyed-same :
    (db db' : Db)
    → db'.processing_jobs ≡ db.processing_jobs
    → db'.next.processing_jobs ≡ db.next.processing_jobs
    → IsKeyed db
    → IsKeyed db'
IsKeyed-same db db' jobs seq v = record {
  distinct = simp jobs v.distinct;
  below = simp (jobs, seq) v.below;
  one_per_stage = simp jobs v.one_per_stage;
}

is_for_comm :
    (j k : ProcessingJob) → is_for j.call_id j.stage k ≡ false → is_for k.call_id k.stage j ≡ false
is_for_comm j k h = ground arith

OnePerStage-snoc :
    (jobs : List ProcessingJob) (row : ProcessingJob)
    → All (λ k. is_for row.call_id row.stage k ≡ false) jobs
    → OnePerStage jobs
    → OnePerStage (jobs ++ row ∷ [])
OnePerStage-snoc [] row a o = (tt, tt)
OnePerStage-snoc (j ∷ jobs) row a o = (
  All-append (λ k. is_for j.call_id j.stage k ≡ false) jobs (row ∷ []) o.0
      (is_for_comm row j a.0, tt),
  OnePerStage-snoc jobs row a.1 o.1,
)

-- An UPDATE that writes no key.
abbrev KeepsKeys : (ProcessingJob → ProcessingJob) → Type 0
KeepsKeys f =
    (j : ProcessingJob) → ((f j).id ≡ j.id) × ((f j).call_id ≡ j.call_id) × ((f j).stage ≡ j.stage)

OnePerStage-update_where :
    (q : ProcessingJob → Bool) (f : ProcessingJob → ProcessingJob) (jobs : List ProcessingJob)
    → KeepsKeys f
    → OnePerStage jobs
    → OnePerStage (update_where q f jobs)
unfolding update_where
OnePerStage-update_where q f [] k o = tt
OnePerStage-update_where q f (j ∷ jobs) k o =
    let rest =
      All-update_where (λ x. is_for j.call_id j.stage x ≡ false) q f jobs
        (λ x h. let (_, c, s) = k x in rw (c, s) h) o.0 in
    let others = OnePerStage-update_where q f jobs k o.1 in
    elim (Bool-cases (q j)) [
      | inl e ↦ let (_, c, s) = k j in rw (e, c, s) (rest, others)
      | inr e ↦ rw e (rest, others)
    ]

update-IsKeyed :
    (q : ProcessingJob → Bool) (f : ProcessingJob → ProcessingJob) (db : Db)
    → KeepsKeys f
    → IsKeyed db
    → IsKeyed (with_jobs (update_where q f db.processing_jobs) db)
update-IsKeyed q f db k v = record {
  distinct =
      Distinct-update_where (λ (j : ProcessingJob). j.id) q f db.processing_jobs (λ j. (k j).0)
        v.distinct;
  below =
      All-update_where (λ (j : ProcessingJob). suc j.id ≤ db.next.processing_jobs) q f
        db.processing_jobs (λ j h. let (i, _, _) = k j in rw i h) v.below;
  one_per_stage = OnePerStage-update_where q f db.processing_jobs k v.one_per_stage;
}

pub enqueue-IsKeyed :
    (settings : Settings) (call_id : ℕ) (stage : JobStage) (now : ℕ) (db : Db)
    → IsKeyed db
    → IsKeyed (enqueue settings call_id stage now db)
unfolding enqueue
enqueue-IsKeyed settings call_id stage now db v =
    let n = db.next.processing_jobs in
    let row = new_job settings call_id stage now n in
    elim (Bool-cases (exists_where (is_for call_id stage) db.processing_jobs)) [
      | inl e ↦ record {
        distinct = rw e v.distinct;
        below = rw e (Below-suc _ n db.processing_jobs v.below);
        one_per_stage = rw e v.one_per_stage;
      }
      | inr e ↦ record {
        distinct = rw e (Distinct-snoc _ n db.processing_jobs row refl v.below v.distinct);
        below = rw e (
            All-append (λ (j : ProcessingJob). suc j.id ≤ suc n) db.processing_jobs (row ∷ [])
              (Below-suc _ n db.processing_jobs v.below) (omega arith, tt));
        one_per_stage = rw e (
            OnePerStage-snoc db.processing_jobs row (exists_where-All _ db.processing_jobs e)
              v.one_per_stage);
      }
    ]

-- What holds with and without one more job holds after a completion.
pub enqueue_next_ind :
    (settings : Settings) (P : Db → Type 0) (nxt : Option JobStage) (row : Option ProcessingJob)
    (now : ℕ) (db : Db)
    → ((call_id : ℕ) (stage : JobStage) → P (enqueue settings call_id stage now db))
    → P db
    → P (enqueue_next settings nxt row now db)
enqueue_next_ind settings P none row now db more same = same
enqueue_next_ind settings P (some stage) none now db more same = same
enqueue_next_ind settings P (some stage) (some j) now db more same = more j.call_id stage

pub claim-IsKeyed :
    (now : ℕ) (locked : ℕ → Bool) (db : Db) → IsKeyed db → IsKeyed (claim now locked db).1
unfolding claim
claim-IsKeyed now locked db v =
    elim (Option-cases (first_due (is_claimable now locked) db.processing_jobs)) [
      | inl e ↦ rw e v
      | inr (j, e) ↦
          rw e (update-IsKeyed (is_job j.id) (start_run now) db (λ k. (refl, refl, refl)) v)
    ]

pub complete-IsKeyed :
    (settings : Settings) (id : ℕ) (nxt : Option JobStage) (now : ℕ) (db : Db)
    → IsKeyed db
    → IsKeyed (complete settings id nxt now db)
unfolding complete
complete-IsKeyed settings id nxt now db v =
    let after = with_jobs (update_where (is_job id) (mark_done now) db.processing_jobs) db in
    let marked = update-IsKeyed (is_job id) (mark_done now) db (λ k. (refl, refl, refl)) v in
    enqueue_next_ind settings IsKeyed nxt (find_job id after) now after
      (λ c stage. enqueue-IsKeyed settings c stage now after marked) marked

pub fail-IsKeyed :
    (settings : Settings) (job : JobClaim) (error : Text) (random now : ℕ) (db : Db)
    → IsKeyed db
    → IsKeyed (fail settings job error random now db)
unfolding fail
fail-IsKeyed settings job error random now db v =
    update-IsKeyed (is_job job.id) (mark_failed settings job error random now) db
      (λ k. (ground arith, ground arith, ground arith)) v
