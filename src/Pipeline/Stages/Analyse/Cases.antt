-- ===== src/Pipeline/Stages/Analyse/Cases.antt =====
-- The outcomes of the analysis.
use callsense.Prelude.{
  ℕ, Bool, true, false, String, ◌≡◌, refl, ◌==◌, exists_where, Bool-cases, Option-cases, ◌⊎◌, inl,
  inr,
}
use callsense.Models.Tables.{CallScore, Db}
use callsense.Session.{Result-cases}
use callsense.Analysis.Schema.{AnalysisResult}
use callsense.Analysis.Verify.{Unicode}
use callsense.Pipeline.Stages.Base.{
  load_call, load_tx_segments, find_call, info_of, tx_segments, transcript_text,
}
use callsense.Pipeline.Stages.Analyse.{
  Analyst, store, analyse_call, run, analyse_with_retry, load_calibration,
}

abbrev pub is_composite_of : ℕ → CallScore → Bool
is_composite_of c r = r.call_id == c

-- What the stage leaves: nothing changed, or the call had no composite and one answer is stored.
pub run_cases :
    (u : Unicode) (analyst : Analyst) (call_id : ℕ) (db : Db)
    → ((run u analyst call_id db).1 ≡ db)
      ⊎ ((exists_where (is_composite_of call_id) db.call_scores ≡ false)
          × (hash : String) × (result : AnalysisResult) × ((run u analyst call_id db).1
              ≡ store u analyst call_id (tx_segments call_id true db) hash result db))
unfolding run analyse_call load_call load_tx_segments
run_cases u analyst call_id db =
    elim (Bool-cases (exists_where (is_composite_of call_id) db.call_scores)) [
      | inl e ↦ inl (rw e)
      | inr e ↦ rw e (elim (Option-cases (find_call call_id db)) [
        | inl f ↦ inl (rw f)
        | inr (row, f) ↦
            let info = info_of row in
            let segments = tx_segments call_id true db in
            let transcript = transcript_text segments in
            let answer =
              analyse_with_retry (analyst.answer info.fixture transcript (load_calibration db)) in
            rw f (elim (Result-cases answer) [
              | inl (x, g) ↦ inl (rw g)
              | inr (result, g) ↦
                  inr (refl, analyst.prompt_hash transcript (load_calibration db), result, rw g)
            ])
      ])
    ]
