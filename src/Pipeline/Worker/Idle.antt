-- ===== src/Pipeline/Worker/Idle.antt =====
-- A worker alone on the queue comes to rest: each round that handles a job uses up effort.
use callsense.Prelude.{
  ℕ, zero, suc, ◌+◌, ◌≤◌, ◌<◌, Bool, true, false, some, ◌≡◌, refl, ap, ◌⊎◌, inl, inr, arith, ==_iff,
  All, All-map, All-only_found, All-find_where, Distinct, update_where, Option-cases,
}
use callsense.Models.Taxonomy.{JobStage}
use callsense.Models.Tables.{Text, ProcessingJob, Db}
use callsense.Session.{Error, Session, rollback}
use callsense.Pipeline.Queue.{
  Settings, find_job, is_job, with_jobs, claim, claim_of, start_run, is_claimable, first_due,
  complete, mark_done, mark_failed, fail,
}
use callsense.Pipeline.Queue.Due.{first_due-found, first_due-holds, first_due-none}
use callsense.Pipeline.Queue.Keys.{IsKeyed}
use callsense.Pipeline.Queue.Outcomes.{found_update}
use callsense.Pipeline.Transitions.{next_stage}
use callsense.Pipeline.Worker.{Moment, finish, process_one, run_until_idle}
use callsense.Pipeline.Worker.Retries.{
  IsSettled, Held, claim-Held, finish_cases, process_one-IsSettled, process_one-IsKeyed,
}
use callsense.Pipeline.Worker.Effort.{
  effort, total_effort, total_effort-update, effort-mark_failed, effort-enqueue_next,
  next_effort_le,
}

-- Nothing is due at a moment.
abbrev pub IsIdle : Moment → Db → Type 0
IsIdle m db = All (λ j. is_claimable m.claimed_at m.locked j ≡ false) db.processing_jobs

module _ (settings : Settings) where
  effort-start_run :
      (now : ℕ) (locked : ℕ → Bool) (j : ProcessingJob)
      → IsSettled j
      → is_claimable now locked j ≡ true
      → effort settings (start_run now j) + 1 ≤ effort settings j
  effort-start_run now locked j settled due = ground arith

  fail-effort :
      (j : ProcessingJob) (start : ℕ) (error : Text) (random now : ℕ) (db : Db)
      → All (Held (start_run start j)) db.processing_jobs
      → find_job j.id db ≡ some (start_run start j)
      → total_effort settings (fail settings (claim_of j) error random now db).processing_jobs
        ≤ total_effort settings db.processing_jobs
  unfolding fail
  fail-effort j start error random now db h found =
      let f = mark_failed settings (claim_of j) error random now in
      let le =
        total_effort-update settings (is_job j.id) f db.processing_jobs (start_run start j) 0
          (All-map (Held (start_run start j))
            (λ k. is_job j.id k ≡ true → effort settings (f k) + 0 ≤ effort settings k)
            db.processing_jobs
            (λ k held t.
              let same = held.0 ((==_iff k.id j.id).0 t) in
              omega (
                arith,
                effort-mark_failed settings (claim_of j) error random now k
                    (ap (λ (x : ProcessingJob). x.status) same),
              ))
            h)
          found in
      omega (arith, le)

  complete-effort :
      (j : ProcessingJob) (start : ℕ) (call_id now : ℕ) (db : Db)
      → All (Held (start_run start j)) db.processing_jobs
      → find_job j.id db ≡ some (start_run start j)
      → total_effort settings
          (complete settings j.id (next_stage j.stage call_id db) now db).processing_jobs
        ≤ total_effort settings db.processing_jobs
  unfolding complete
  complete-effort j start call_id now db h found =
      let held = start_run start j in
      let after = with_jobs (update_where (is_job j.id) (mark_done now) db.processing_jobs) db in
      let marked =
        total_effort-update settings (is_job j.id) (mark_done now) db.processing_jobs held
          (effort settings held)
          (All-map (Held held)
            (λ k.
              is_job j.id k ≡ true
              → effort settings (mark_done now k) + effort settings held ≤ effort settings k)
            db.processing_jobs
            (λ k h t. omega (arith, ap (effort settings) (h.0 ((==_iff k.id j.id).0 t)))) h)
          found in
      let queued =
        effort-enqueue_next settings (next_stage j.stage call_id db) (find_job j.id after) now
          after in
      omega (arith, marked, queued, next_effort_le settings j.stage call_id db)

module _ (settings : Settings) (describe : Error → Text)
    (run_stage : JobStage → ℕ → Session (Unit {0}))
    (keeps_jobs : (stage : JobStage) (call_id : ℕ) (db : Db)
      → (run_stage stage call_id db).1.processing_jobs ≡ db.processing_jobs)
    (keeps_sequence : (stage : JobStage) (call_id : ℕ) (db : Db)
      → (run_stage stage call_id db).1.next.processing_jobs ≡ db.next.processing_jobs)
    (some_attempts : 0 < settings.job_max_attempts) where
  finish-effort :
      (j : ProcessingJob) (m : Moment) (db : Db)
      → All (Held (start_run m.claimed_at j)) db.processing_jobs
      → find_job j.id db ≡ some (start_run m.claimed_at j)
      → total_effort settings (finish settings describe run_stage (claim_of j) m db).processing_jobs
        ≤ total_effort settings db.processing_jobs
  unfolding rollback
  finish-effort j m db h found =
      let after = (run_stage j.stage j.call_id db).1 in
      let same = keeps_jobs j.stage j.call_id db in
      elim (finish_cases settings describe run_stage (claim_of j) m db) [
        | inl (e, _, ended) ↦ rw ended (
            fail-effort settings j m.claimed_at (describe e) m.random m.ended_at (rollback db after)
              h found)
        | inr (_, ended) ↦ rw ended (
            let done =
              complete-effort settings j m.claimed_at j.call_id m.ended_at after (rw same h)
                (rw same found) in
            omega (arith, done, ap (total_effort settings) same))
      ]

  -- A round handles nothing, as nothing is due, or uses up effort.
  process_one-effort :
      (m : Moment) (db : Db)
      → Distinct (λ (j : ProcessingJob). j.id) db.processing_jobs
      → All IsSettled db.processing_jobs
      → ((process_one settings describe run_stage m db ≡ (false, db))
          × All (λ j. is_claimable m.claimed_at m.locked j ≡ false) db.processing_jobs)
        ⊎ ((after : Db) × (process_one settings describe run_stage m db ≡ (true, after))
            × (total_effort settings after.processing_jobs + 1
                ≤ total_effort settings db.processing_jobs))
  unfolding process_one claim
  process_one-effort m db d h =
      let p = is_claimable m.claimed_at m.locked in
      elim (Option-cases (first_due p db.processing_jobs)) [
        | inl e ↦ inl (rw e refl, first_due-none p db.processing_jobs e)
        | inr (j, e) ↦
            let found = first_due-found p db.processing_jobs j d e in
            let due = first_due-holds p db.processing_jobs j e in
            let settled = All-find_where IsSettled (is_job j.id) db.processing_jobs j h found in
            let only =
              All-only_found (λ (k : ProcessingJob). k.id) j.id db.processing_jobs j d found in
            let run = start_run m.claimed_at in
            let taken = with_jobs (update_where (is_job j.id) run db.processing_jobs) db in
            let held = claim-Held m.claimed_at db.processing_jobs j d only h in
            let lower =
              total_effort-update settings (is_job j.id) run db.processing_jobs j 1
                (All-map (λ (k : ProcessingJob). k.id ≡ j.id → k ≡ j)
                  (λ k. is_job j.id k ≡ true → effort settings (run k) + 1 ≤ effort settings k)
                  db.processing_jobs
                  (λ k same t.
                    let e' = same ((==_iff k.id j.id).0 t) in
                    rw e' (effort-start_run settings m.claimed_at m.locked j settled due))
                  only)
                found in
            let ended =
              finish-effort j m taken held
                (found_update j.id run db.processing_jobs j (λ k. refl) found) in
            inr (
              finish settings describe run_stage (claim_of j) m taken,
              rw e refl,
              omega (arith, lower, ended),
            )
      ]

  run_until_idle-suc :
      (n : ℕ) (moments : ℕ → Moment) (handled : ℕ) (db : Db) (r : Bool × Db)
      → process_one settings describe run_stage (moments n) db ≡ r
      → run_until_idle settings describe run_stage (suc n) moments handled db ≡ (elim r.0 [
        | true ↦ run_until_idle settings describe run_stage n moments (handled + 1) r.1
        | false ↦ (handled, r.1)
      ])
  unfolding run_until_idle
  run_until_idle-suc n moments handled db r e =
      ap
        (λ (x : Bool × Db). elim x.0 as (λ _. ℕ × Db) [
          | true ↦ run_until_idle settings describe run_stage n moments (handled + 1) x.1
          | false ↦ (handled, x.1)
        ])
        e

  -- Let each setting allow an attempt, and let the stages leave the job table and its sequence
  -- alone. A worker that is alone on a queue with distinct keys, none of whose jobs is running,
  -- handles a job at most as often as the effort of the queue says, that is, by the attempts that
  -- its jobs have left and those of the stages after them; and given more rounds than that, it
  -- stops before they are used up, when no job is due.
  pub run_until_idle-IsIdle :
      (n : ℕ) (moments : ℕ → Moment) (handled : ℕ) (db : Db)
      → IsKeyed db
      → All IsSettled db.processing_jobs
      → total_effort settings db.processing_jobs < n
      → let (count, after) = run_until_idle settings describe run_stage n moments handled db in
        (count + total_effort settings after.processing_jobs
          ≤ handled + total_effort settings db.processing_jobs)
        × (k : ℕ) × (k < n)
        × IsIdle (moments k) after
  run_until_idle-IsIdle zero moments handled db v h enough = absurd (omega (arith, enough))
  run_until_idle-IsIdle (suc n) moments handled db v h enough =
      elim (process_one-effort (moments n) db v.distinct h) [
        | inl (e, idle) ↦
            rw (run_until_idle-suc n moments handled db (false, db) e)
              (omega arith, n, omega arith, idle)
        | inr (db', e, lower) ↦
            let m = moments n in
            let keyed =
              process_one-IsKeyed settings describe run_stage keeps_jobs keeps_sequence
                some_attempts m db v in
            let settled =
              process_one-IsSettled settings describe run_stage keeps_jobs keeps_sequence
                some_attempts m db v.distinct h in
            let (few, k, early, idle) =
              run_until_idle-IsIdle n moments (handled + 1) db' (simp e at keyed)
                (simp e at settled) (omega (arith, lower, enough)) in
            rw (run_until_idle-suc n moments handled db (true, db') e)
              (omega (arith, few, lower), k, omega (arith, early), idle)
      ]
