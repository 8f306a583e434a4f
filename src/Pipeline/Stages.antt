-- ===== src/Pipeline/Stages.antt =====
-- backend/pipeline/stages: the six stages, over what the process sees of the outside.
pub mod Base
pub mod Transcribe
pub mod Diarise
pub mod Redact
pub mod Classify
pub mod Analyse
pub mod Validate
pub mod Queue
pub mod Settled
use callsense.Prelude.{ℕ, Bool, String, Option, List}
use callsense.Models.Taxonomy.{JobStage, transcribe, diarise, redact, classify, analyse, validate}
use callsense.Models.Tables.{Text}
use callsense.Session.{Result, Session}
use callsense.Analysis.Verify.{Unicode}

-- The transcription engine, the audio decoder and clustering behind the diariser, the patterns of
-- the redaction, and the two uses of a language model.
pub record World : Type 0 where
  pub unicode : Unicode
  pub get_transcriber : Option String → Transcribe.Transcriber
  pub diarise_segments : Diarise.Diariser
  pub sorted_set : List String → List String
  pub redact_text : Text → Text × List String
  pub classify_opening : Option String → Text → Result Classify.Verdict
  pub analyst : Analyse.Analyst

-- STAGES[stage]
unfoldable pub run_stage : World → JobStage → ℕ → Session (Unit {0})
run_stage w transcribe = Transcribe.run w.get_transcriber
run_stage w diarise = Diarise.run w.diarise_segments
run_stage w redact = Redact.run w.sorted_set w.redact_text
run_stage w classify = Classify.run w.classify_opening
run_stage w analyse = Analyse.run w.unicode w.analyst
run_stage w validate = Validate.run
