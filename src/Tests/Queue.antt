-- ===== src/Tests/Queue.antt =====
-- The queue and its worker on one job.
use callsense.Prelude.{
  ℕ, ◌+◌, ◌*◌, ◌^◌, ◌-◌, ◌≤◌, ◌<◌, Bool, true, false, none, some, [], ◌∷◌, ◌≡◌, ◌≢◌, ◌⊎◌, refl,
  arith, All, find_where, exists_where,
}
use callsense.Models.Taxonomy.{diarise, pending, done, dead}
use callsense.Models.Tables.{ProcessingJob}
use callsense.Pipeline.Queue.{
  second, backoff, is_for, find_job, is_claimable, claim, claim_of, start_run, complete, fail,
  first_due,
}
use callsense.Pipeline.Queue.Keys.{IsKeyed}
use callsense.Pipeline.Queue.Due.{claim_lem}
use callsense.Pipeline.Queue.Backoff.{backoff_bounds}
use callsense.Pipeline.Queue.Lease.{claim_op, claims, lease_exclusive, option_list}
use callsense.Pipeline.Queue.Outcomes.{IsShort, fail_lem, complete_lem}
use callsense.Pipeline.Worker.{run_until_idle}
use callsense.Pipeline.Worker.Effort.{total_effort}
use callsense.Pipeline.Worker.Idle.{IsIdle}
use callsense.Pipeline.Worker.Retries.{IsSettled}
use callsense.Pipeline.Stages.{run_stage}
use callsense.Pipeline.Stages.Settled.{pipeline-IsSettled, pipeline-IsIdle}
use callsense.Tests.Samples.{
  sample_settings, sample_job, queue_db, last_claim, sample_world, sample_moments, no_text,
}

unlocked : ℕ → Bool
unlocked id = false

claim_lem_example :
    (((claim 10 (λ id. false) queue_db) ≡ (none, queue_db))
      × All (λ k. is_claimable 10 (λ id. false) k ≡ false) queue_db.processing_jobs)
    ⊎ ((j : ProcessingJob) × ((claim 10 (λ id. false) queue_db).0 ≡ some (claim_of j))
        × (find_job j.id queue_db ≡ some j)
        × (is_claimable 10 (λ id. false) j ≡ true)
        × All
            (λ k. is_claimable 10 (λ id. false) k ≡ true → j.run_after ≤ k.run_after)
            queue_db.processing_jobs
        × (find_job j.id (claim 10 (λ id. false) queue_db).1 ≡ some (start_run 10 j)))
claim_lem_example = claim_lem 10 (λ id. false) queue_db (tt, tt)

queue_IsKeyed : IsKeyed queue_db
queue_IsKeyed = record { distinct = (tt, tt); below = (omega arith, tt); one_per_stage = (tt, tt) }

claimed : (claim 10 (λ id. false) queue_db).0 ≡ some (claim_of sample_job)
unfolding claim first_due
claimed = refl

lease_exclusive_example :
    All
      (λ c. c.id ≢ 1)
      (claims sample_settings
        (claim_op (10 + 300 * second) (λ id. false) ∷ [])
        (claim 10 (λ id. false) queue_db).1)
lease_exclusive_example =
    lease_exclusive sample_settings 10 (λ id. false) queue_db (claim_of sample_job)
      (claim_op (10 + 300 * second) (λ id. false) ∷ []) queue_IsKeyed claimed (omega arith, tt)

backoff_bounds_example :
    (second * 2 ^ (3 - 1) ≤ backoff sample_settings 3 5)
    × (backoff sample_settings 3 5 ≤ 3 * (second * 2 ^ (3 - 1)))
backoff_bounds_example = backoff_bounds sample_settings 3 5 second refl (omega arith)

sample_job_found : find_job 1 queue_db ≡ some sample_job
unfolding find_where
sample_job_found = refl

fail_lem_example :
    (after : ProcessingJob) × (find_job 1 (fail sample_settings last_claim [] 0 20 queue_db)
      ≡ some after)
    × IsShort after.last_error
    × (((3 ≤ 3) × (after.status ≡ dead))
        ⊎ ((3 < 3)
            × (after.status ≡ pending)
            × (after.run_after ≡ 20 + backoff sample_settings 3 0)))
fail_lem_example = fail_lem sample_settings last_claim [] 0 20 queue_db sample_job sample_job_found

complete_lem_example :
    (find_job 1 (complete sample_settings 1 (some diarise) 20 queue_db)
      ≡ some (record sample_job { status = done; last_error = none; updated_at = 20 }))
    × All
        (λ stage.
          exists_where
            (is_for 1 stage)
            (complete sample_settings 1 (some diarise) 20 queue_db).processing_jobs
          ≡ true)
        (option_list (some diarise))
complete_lem_example =
    complete_lem sample_settings 1 (some diarise) 20 queue_db sample_job sample_job_found

pipeline-IsSettled_example :
    IsKeyed
      (run_until_idle sample_settings no_text
        (run_stage sample_world)
        6
        sample_moments
        0
        queue_db).1
    × All IsSettled
        (run_until_idle sample_settings no_text
          (run_stage sample_world)
          6
          sample_moments
          0
          queue_db).1.processing_jobs
pipeline-IsSettled_example =
    pipeline-IsSettled sample_world sample_settings no_text 6 sample_moments queue_db (omega arith)
      queue_IsKeyed (omega arith, tt)

pipeline-IsIdle_example :
    let (count, after) =
      run_until_idle sample_settings no_text
        (run_stage sample_world)
        19
        sample_moments
        0
        queue_db in
    (count + total_effort sample_settings after.processing_jobs
      ≤ total_effort sample_settings queue_db.processing_jobs)
    × (k : ℕ) × (k < 19)
    × IsIdle (sample_moments k) after
pipeline-IsIdle_example =
    pipeline-IsIdle sample_world sample_settings no_text 19 sample_moments queue_db (omega arith)
      queue_IsKeyed (omega arith, tt) (omega arith)
