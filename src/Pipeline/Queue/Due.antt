-- ===== src/Pipeline/Queue/Due.antt =====
-- Which job a claim takes.
use callsense.Prelude.{
  ℕ, ◌≤◌, Bool, true, false, ◌&&◌, none, some, List, [], ◌∷◌, ◌≡◌, ◌≢◌, refl, ap, ◌⊎◌, inl, inr,
  arith, leb, All-find_where, find_where, All, All-map, Distinct, Bool-cases, Option-cases, ==_refl,
  find_where-update,
}
use callsense.Models.Tables.{ProcessingJob, Db}
use callsense.Pipeline.Queue.{is_job, find_job, is_claimable, first_due, claim, claim_of, start_run}

module _ (p : ProcessingJob → Bool) where
  pub first_due-holds :
      (jobs : List ProcessingJob) (j : ProcessingJob) → first_due p jobs ≡ some j → p j ≡ true
  unfolding first_due
  first_due-holds [] j h = cc
  first_due-holds (k ∷ jobs) j h = elim (Option-cases (first_due p jobs)) [
    | inl e ↦ ground arith
    | inr (r, e) ↦ ground (arith, first_due-holds jobs r)
  ]

  first_due_cases :
      (k : ProcessingJob) (jobs : List ProcessingJob) (j : ProcessingJob)
      → first_due p (k ∷ jobs) ≡ some j
      → ((k ≡ j)
          × (p k ≡ true)
          × ((r : ProcessingJob) → first_due p jobs ≡ some r → k.run_after ≤ r.run_after))
        ⊎ ((first_due p jobs ≡ some j) × (p k ≡ true → j.run_after ≤ k.run_after))
  unfolding first_due
  first_due_cases k jobs j h = elim (Option-cases (first_due p jobs)) [
    | inl e ↦ inl (ground arith, ground arith, λ r e'. absurd (ground arith))
    | inr (r, e) ↦ elim (Bool-cases (p k && leb k.run_after r.run_after)) [
      | inl t ↦ inl (ground arith, ground arith, λ r' e'. ground arith)
      | inr t ↦ inr (ground arith, λ t'. ground arith)
    ]
  ]

  pub first_due-none :
      (jobs : List ProcessingJob) → first_due p jobs ≡ none → All (λ k. p k ≡ false) jobs
  unfolding first_due
  first_due-none [] h = tt
  first_due-none (k ∷ jobs) h = elim (Option-cases (first_due p jobs)) [
    | inl e ↦ (ground arith, first_due-none jobs e)
    | inr (r, e) ↦ absurd (ground arith)
  ]

  first_due-le :
      (jobs : List ProcessingJob) (j : ProcessingJob)
      → first_due p jobs ≡ some j
      → All (λ k. p k ≡ true → j.run_after ≤ k.run_after) jobs
  first_due-le [] j h = tt
  first_due-le (k ∷ jobs) j h = elim (first_due_cases k jobs j h) [
    | inl (e, t, first) ↦ (
      λ _. rw e (omega arith),
      elim (Option-cases (first_due p jobs)) [
        | inl n ↦
            All-map (λ (x : ProcessingJob). p x ≡ false)
              (λ x. p x ≡ true → j.run_after ≤ x.run_after) jobs (λ x off on. cc)
              (first_due-none jobs n)
        | inr (r, n) ↦
            All-map (λ x. p x ≡ true → r.run_after ≤ x.run_after)
              (λ x. p x ≡ true → j.run_after ≤ x.run_after) jobs
              (λ x le on.
                omega (arith, le on, first r n, ap (λ (y : ProcessingJob). y.run_after) e))
              (first_due-le jobs r n)
      ],
    )
    | inr (e, le) ↦ (le, first_due-le jobs j e)
  ]

  -- The job that is taken is the row with its id.
  pub first_due-found :
      (jobs : List ProcessingJob) (j : ProcessingJob)
      → Distinct (λ (k : ProcessingJob). k.id) jobs
      → first_due p jobs ≡ some j
      → find_where (is_job j.id) jobs ≡ some j
  unfolding find_where
  first_due-found [] j d h = unfold first_due in cc
  first_due-found (k ∷ jobs) j d h = elim (first_due_cases k jobs j h) [
    | inl (e, _, _) ↦ ground arith
    | inr (e, _) ↦
        let found = first_due-found jobs j d.1 e in
        let apart = All-find_where (λ y. y.id ≢ k.id) (is_job j.id) jobs j d.0 found in ground arith
  ]

-- If a claim returns a job, its row was due and not locked, and none that was is due earlier; the
-- row is now running, with one attempt more, and the claim holds what the row holds. If it returns
-- none, the database is as before and every row is locked or not due.
pub claim_lem :
    (now : ℕ) (locked : ℕ → Bool) (db : Db)
    → Distinct (λ (j : ProcessingJob). j.id) db.processing_jobs
    → (((claim now locked db) ≡ (none, db))
        × All (λ k. is_claimable now locked k ≡ false) db.processing_jobs)
      ⊎ ((j : ProcessingJob) × ((claim now locked db).0 ≡ some (claim_of j))
          × (find_job j.id db ≡ some j)
          × (is_claimable now locked j ≡ true)
          × All
              (λ k. is_claimable now locked k ≡ true → j.run_after ≤ k.run_after)
              db.processing_jobs
          × (find_job j.id (claim now locked db).1 ≡ some (start_run now j)))
unfolding claim
claim_lem now locked db d =
    let p = is_claimable now locked in
    elim (Option-cases (first_due p db.processing_jobs)) [
      | inl e ↦ inl (ground arith, first_due-none p db.processing_jobs e)
      | inr (j, e) ↦
          let found = first_due-found p db.processing_jobs j d e in
          inr (
            j,
            ground arith,
            found,
            first_due-holds p db.processing_jobs j e,
            first_due-le p db.processing_jobs j e,
            rw
                (
                  e,
                  find_where-update (is_job j.id) (is_job j.id) (start_run now) db.processing_jobs
                      (λ x. refl),
                  found,
                  ==_refl j.id,
                )
                refl,
          )
    ]
