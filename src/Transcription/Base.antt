-- ===== src/Transcription/Base.antt =====
-- backend/transcription/base.py
use callsense.Prelude.{ℕ, String, Option, List}
use callsense.Double.{Double}
use callsense.Models.Taxonomy.{SpeakerRole}
use callsense.Models.Tables.{Text}

pub record TxSegment : Type 0 where
  pub idx : ℕ
  pub start_s : Double
  pub end_s : Double
  pub text : Text
  pub speaker : SpeakerRole

-- The code-switch ratio is a number of thousandths.
pub record TranscriptResult : Type 0 where
  pub engine : String
  pub language : Option String
  pub text : Text
  pub segments : List TxSegment
  pub code_switch_ratio : Option ℕ
  pub wer_estimate : Option Double
