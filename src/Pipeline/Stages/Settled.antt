-- ===== src/Pipeline/Stages/Settled.antt =====
-- The last two stages leave the job table alone too, so that the worker's invariant holds with the
-- stages of backend/pipeline/stages in place.
use callsense.Prelude.{
  ℕ, ◌+◌, ◌≤◌, Bool, false, String, Option, none, some, List, [], ◌∷◌, ◌++◌, refl, ◌∙◌, ◌<◌, arith,
  All,
}
use callsense.Models.Taxonomy.{JobStage, transcribe, diarise, redact, classify, analyse, validate}
use callsense.Models.Tables.{Text, Db}
use callsense.Session.{Error, execute}
use callsense.Transcription.Base.{TxSegment}
use callsense.Analysis.Rubric.{DimScores}
use callsense.Analysis.Schema.{DimensionScore, RawFlag, AnalysisResult}
use callsense.Analysis.Verify.{Unicode, verify_quote, default_threshold}
use callsense.Pipeline.Queue.{Settings}
use callsense.Pipeline.Queue.Keys.{IsKeyed}
use callsense.Pipeline.Worker.{Moment, run_until_idle}
use callsense.Pipeline.Worker.Retries.{IsSettled, run_until_idle-IsSettled}
use callsense.Pipeline.Worker.Effort.{total_effort}
use callsense.Pipeline.Worker.Idle.{IsIdle, run_until_idle-IsIdle}
use callsense.Pipeline.Stages.{World, run_stage}
use callsense.Pipeline.Stages.Base.{merge_raw_metadata}
use callsense.Pipeline.Stages.Classify.{insert_flag}
use callsense.Pipeline.Stages.Analyse
use callsense.Pipeline.Stages.Validate
use callsense.Pipeline.Stages.Queue.{
  SameQueue, KeepsQueue, keeps_queue, writes, transcribe-KeepsQueue, diarise-KeepsQueue,
  redact-KeepsQueue, classify-KeepsQueue,
}

module _ (u : Unicode) (analyst : Analyse.Analyst) (call_id : ℕ) (segments : List TxSegment) where
  store_scores-SameQueue :
      (hash : String) (dims : List DimensionScore) (scores : DimScores) (db : Db)
      → SameQueue db (Analyse.store_scores u analyst call_id segments hash dims scores db).1
  unfolding Analyse.store_scores
  store_scores-SameQueue hash [] scores db = (refl, refl)
  store_scores-SameQueue hash (dim ∷ dims) scores db =
      store_scores-SameQueue hash dims ((dim.dimension, dim.score) ∷ scores) (record db {
        scores = db.scores ++ Analyse.new_score u analyst call_id segments hash dim ∷ [];
      })

  store_flags-SameQueue :
      (flags : List RawFlag) (state : Bool × Db)
      → SameQueue state.1 (Analyse.store_flags u analyst call_id segments flags state).1
  unfolding Analyse.store_flags insert_flag
  store_flags-SameQueue [] state = (refl, refl)
  store_flags-SameQueue (flag ∷ flags) (has_critical, db) =
      let match = verify_quote u flag.quote segments default_threshold in
      let state = Analyse.store_flag u analyst call_id segments flag match (has_critical, db) in
      let rest = store_flags-SameQueue flags state in (rest.0 ∙ ground arith, rest.1 ∙ ground arith)

  store_ratio-SameQueue :
      (r : Option ℕ) (db : Db) → SameQueue db (Analyse.store_ratio u analyst call_id r db)
  unfolding merge_raw_metadata insert_flag
  store_ratio-SameQueue none db = (refl, refl)
  store_ratio-SameQueue (some r) db = (ground arith, ground arith)

  insert_composite-SameQueue :
      (c : ℕ × Bool) (db : Db) → SameQueue db (Analyse.insert_composite u analyst call_id c db)
  unfolding Analyse.insert_composite
  insert_composite-SameQueue (c, capped) db = (refl, refl)

  store-KeepsQueue :
      (hash : String) (result : AnalysisResult)
      → KeepsQueue (execute (Analyse.store u analyst call_id segments hash result))
  unfolding Analyse.store
  store-KeepsQueue hash result = record {
    at = λ db.
        let (dim_scores, scored) =
          Analyse.store_scores u analyst call_id segments hash result.dimensions [] db in
        let (has_critical, flagged) =
          Analyse.store_flags u analyst call_id segments result.flags (false, scored) in
        let ratio = callsense.Analysis.Metrics.talk_ratio segments in
        let noted = Analyse.store_ratio u analyst call_id ratio flagged in
        let composite = callsense.Analysis.Rubric.compute_composite dim_scores has_critical in
        let r = store_scores-SameQueue hash result.dimensions [] db in
        let s = store_flags-SameQueue result.flags (false, scored) in
        let t = store_ratio-SameQueue ratio flagged in
        let c = insert_composite-SameQueue composite noted in
        (c.0 ∙ t.0 ∙ s.0 ∙ r.0, c.1 ∙ t.1 ∙ s.1 ∙ r.1);
  }

module _ (u : Unicode) (analyst : Analyse.Analyst) where
  analyse_call-KeepsQueue : (id : ℕ) → KeepsQueue (Analyse.analyse_call u analyst id)
  unfolding Analyse.analyse_call
  analyse_call-KeepsQueue id = search (writes, store-KeepsQueue) depth 10

  analyse-KeepsQueue : (id : ℕ) → KeepsQueue (Analyse.run u analyst id)
  unfolding Analyse.run
  analyse-KeepsQueue id = search (keeps_queue, analyse_call-KeepsQueue)

validate-KeepsQueue : (id : ℕ) → KeepsQueue (Validate.run id)
unfolding Validate.run
validate-KeepsQueue id = search writes depth 8

run_stage-KeepsQueue : (w : World) (stage : JobStage) (id : ℕ) → KeepsQueue (run_stage w stage id)
unfolding run_stage
run_stage-KeepsQueue w transcribe id = transcribe-KeepsQueue w.get_transcriber id
run_stage-KeepsQueue w diarise id = diarise-KeepsQueue w.diarise_segments id
run_stage-KeepsQueue w redact id = redact-KeepsQueue w.sorted_set w.redact_text id
run_stage-KeepsQueue w classify id = classify-KeepsQueue w.classify_opening id
run_stage-KeepsQueue w analyse id = analyse-KeepsQueue w.unicode w.analyst id
run_stage-KeepsQueue w validate id = validate-KeepsQueue id

-- Let the settings allow an attempt. Call a queue settled if its keys are distinct and below the
-- sequence's next, there are no two jobs for one call and stage, no job is running or failed, and
-- every job is within its budget: a pending job has been tried less often than `max_attempts`, a
-- done one at most and a dead one exactly that often. A worker that runs the six stages, alone on a
-- settled queue, leaves a settled queue, whatever the engines and models answer and after any
-- number of rounds.
pub pipeline-IsSettled :
    (w : World) (settings : Settings) (describe : Error → Text) (n : ℕ) (moments : ℕ → Moment)
    (db : Db)
    → 0 < settings.job_max_attempts
    → IsKeyed db
    → All IsSettled db.processing_jobs
    → let after = (run_until_idle settings describe (run_stage w) n moments 0 db).1 in
      IsKeyed after × All IsSettled after.processing_jobs
pipeline-IsSettled w settings describe n moments db h v s =
    run_until_idle-IsSettled settings describe (run_stage w)
      (λ stage id db. ((run_stage-KeepsQueue w stage id).at db).0)
      (λ stage id db. ((run_stage-KeepsQueue w stage id).at db).1) h n moments 0 db v s

-- Let the settings allow an attempt. A worker that runs the six stages, alone on a queue that has
-- distinct keys below the sequence's next, no two jobs for one call and stage, no job that is
-- running or failed, and every job within its budget (a pending job tried less often than
-- `max_attempts`, a done one at most, a dead one exactly that often), comes to rest, whatever the
-- engines and models answer: it handles a job at most as often as the effort of the queue says (the
-- attempts that its jobs have left, and those of the stages after them), and with more rounds than
-- that it stops before they are used up, at a moment at which no job is due.
pub pipeline-IsIdle :
    (w : World) (settings : Settings) (describe : Error → Text) (n : ℕ) (moments : ℕ → Moment)
    (db : Db)
    → 0 < settings.job_max_attempts
    → IsKeyed db
    → All IsSettled db.processing_jobs
    → total_effort settings db.processing_jobs < n
    → let (count, after) = run_until_idle settings describe (run_stage w) n moments 0 db in
      (count + total_effort settings after.processing_jobs
        ≤ total_effort settings db.processing_jobs)
      × (k : ℕ) × (k < n)
      × IsIdle (moments k) after
pipeline-IsIdle w settings describe n moments db h v s enough =
    let (few, k, early, idle) =
      run_until_idle-IsIdle settings describe (run_stage w)
        (λ stage id db. ((run_stage-KeepsQueue w stage id).at db).0)
        (λ stage id db. ((run_stage-KeepsQueue w stage id).at db).1) h n moments 0 db v s enough in
    (omega (arith, few), k, early, idle)
