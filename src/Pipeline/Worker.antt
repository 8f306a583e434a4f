-- ===== src/Pipeline/Worker.antt =====
-- backend/pipeline/worker.py: a job is claimed in one transaction, run in a second, and failed in
-- a third if the second raised. What a stage does is a parameter here; `callsense.Pipeline.Stages`
-- has the stages.
pub mod Retries
pub mod Effort
pub mod Idle
use callsense.Prelude.{ℕ, zero, suc, ◌+◌, Bool, true, false, Option, none, some, if◌then◌else◌}
use callsense.Models.Taxonomy.{JobStage}
use callsense.Models.Tables.{Text, Db}
use callsense.Session.{
  Error, Result, ok, err, Session, pure, select, execute, rollback, ◌>>=◌, ◌>>◌,
}
use callsense.Pipeline.Queue.{Settings, JobClaim, claim, complete, fail}
use callsense.Pipeline.Transitions.{next_stage}

-- What the process sees from outside while it handles one job: the clock at the claim and at the
-- end, the rows that other workers have locked, and the random number of the backoff.
pub record Moment : Type 0 where
  pub claimed_at : ℕ
  pub ended_at : ℕ
  pub locked : ℕ → Bool
  pub random : ℕ

-- `describe e` is f"{type(exc).__name__}: {exc}".
module _ (settings : Settings) (describe : Error → Text)
    (run_stage : JobStage → ℕ → Session (Unit {0})) where
  -- The second transaction: the stage, and the transition of its job.
  unfoldable pub work : JobClaim → ℕ → Session (Unit {0})
  work job now = do
    run_stage job.stage job.call_id
    nxt ← select (next_stage job.stage job.call_id)
    execute (complete settings job.id nxt now)

  abbrev end_job : JobClaim → Moment → Db → Result (Unit {0}) × Db → Db
  end_job job m before (ok _, after) = after
  end_job job m before (err e, after) =
      fail settings job (describe e) m.random m.ended_at (rollback before after)

  unfoldable pub finish : JobClaim → Moment → Db → Db
  unfolding work
  finish job m db = end_job job m db (work job m.ended_at db)

  abbrev run_claimed : Moment → Option JobClaim × Db → Bool × Db
  run_claimed m (none, db) = (false, db)
  run_claimed m (some job, db) = (true, finish job m db)

  unfoldable pub process_one : Moment → Db → Bool × Db
  process_one m db = run_claimed m (claim m.claimed_at m.locked db)

  -- `for _ in range(max_iterations)`; a round takes place at the moment of the rounds left.
  unfoldable pub run_until_idle : ℕ → (ℕ → Moment) → ℕ → Db → ℕ × Db
  run_until_idle zero moments handled db = (handled, db)
  run_until_idle (suc n) moments handled db =
      let (busy, db') = process_one (moments n) db in
      elim busy [ true ↦ run_until_idle n moments (handled + 1) db' | false ↦ (handled, db') ]
