-- ===== src/Models/Tables.antt =====
-- The tables of backend/db/models.py as lists of rows, oldest row first, and the database.
-- Columns that no modelled code reads (created_at, most updated_at, names, e-mails) are left out.
-- A text that the code takes apart is its list of code points; a time of the queue is a number of
-- microseconds; a time within a recording is a double.
use callsense.Prelude.{ℕ, Bool, String, Option, List, []}
use callsense.Double.{Double}
use callsense.Models.Taxonomy.{
  CallStatus, JobStage, JobStatus, SpeakerRole, RubricDimension, FlagTag, FlagSeverity, FlagState,
  CalibrationVerdict,
}

abbrev pub Text : Type 0
Text = List ℕ

-- The JSON values that the code puts into `raw_metadata`.
pub data Json : Type 0 where
  null : Json
  bool : Bool → Json
  number : Double → Json
  thousandths : ℕ → Json
  text : String → Json
  texts : List String → Json

abbrev pub Metadata : Type 0
Metadata = List (String × Json)

pub record Team : Type 0 where
  pub id : ℕ
  pub org_id : ℕ

pub record Advisor : Type 0 where
  pub id : ℕ
  pub team_id : ℕ
  pub external_ids : List String

pub record Call : Type 0 where
  pub id : ℕ
  pub org_id : ℕ
  pub advisor_id : Option ℕ
  pub customer_ref : Option String
  pub source : String
  pub source_call_id : Option String
  pub idempotency_key : String
  pub audio_uri : Option String
  pub duration_s : Option Double
  pub called_at : ℕ
  pub channels : Option ℕ
  pub language_hint : Option String
  pub raw_metadata : Metadata
  pub status : CallStatus

pub record ProcessingJob : Type 0 where
  pub id : ℕ
  pub call_id : ℕ
  pub stage : JobStage
  pub status : JobStatus
  pub attempts : ℕ
  pub max_attempts : ℕ
  pub last_error : Option Text
  pub run_after : ℕ
  pub updated_at : ℕ

pub record Transcript : Type 0 where
  pub id : ℕ
  pub call_id : ℕ
  pub engine : String
  pub language : Option String
  pub code_switch_ratio : Option ℕ
  pub wer_estimate : Option Double
  pub text : Text

pub record Segment : Type 0 where
  pub id : ℕ
  pub transcript_id : ℕ
  pub idx : ℕ
  pub speaker : SpeakerRole
  pub start_s : Double
  pub end_s : Double
  pub text : Text
  pub redacted_text : Option Text

pub record Score : Type 0 where
  pub call_id : ℕ
  pub rubric_version : String
  pub dimension : RubricDimension
  pub raw_score : ℕ
  pub weight : Double
  pub evidence_quote : Text
  pub evidence_start_s : Option Double
  pub model : String
  pub prompt_hash : String

-- The composite is a number of hundredths.
pub record CallScore : Type 0 where
  pub call_id : ℕ
  pub composite : ℕ
  pub rubric_version : String
  pub compliance_capped : Bool

pub record Flag : Type 0 where
  pub id : ℕ
  pub call_id : ℕ
  pub tag : FlagTag
  pub severity : FlagSeverity
  pub start_s : Option Double
  pub end_s : Option Double
  pub quote : Option Text
  pub reason : Text
  pub confidence : Double
  pub state : FlagState

pub record Dispute : Type 0 where
  pub id : ℕ
  pub flag_id : ℕ
  pub raised_by : Option ℕ
  pub note : Option String
  pub resolved_by : Option String
  pub resolution : Option FlagState
  pub resolution_note : Option String
  pub resolved_at : Option ℕ

pub record CalibrationExample : Type 0 where
  pub id : ℕ
  pub tag : FlagTag
  pub quote : Text
  pub verdict : CalibrationVerdict
  pub source_dispute_id : ℕ

-- `advisor_id n` is the text f"advisor:{n}".
pub data Actor : Type 0 where
  named : String → Actor
  advisor_id : ℕ → Actor

pub data Entity : Type 0 where
  call_ref : Option String → Entity
  call_row flag_row : ℕ → Entity

-- `before` and `after` hold the state of a flag; `note` the free text of the entry; `origin` the
-- source and the audio_uri of a delivery.
pub record AuditLog : Type 0 where
  pub actor : Actor
  pub action : String
  pub entity : Entity
  pub before : Option FlagState
  pub after : Option FlagState
  pub note : Option String
  pub origin : Option (String × String)

-- The next value of each id sequence. A sequence is not rolled back with its transaction.
pub record Sequences : Type 0 where
  pub calls : ℕ
  pub processing_jobs : ℕ
  pub transcripts : ℕ
  pub segments : ℕ
  pub flags : ℕ
  pub disputes : ℕ
  pub calibration_examples : ℕ

-- An organisation is its id.
pub record Db : Type 0 where
  pub orgs : List ℕ
  pub teams : List Team
  pub advisors : List Advisor
  pub calls : List Call
  pub processing_jobs : List ProcessingJob
  pub transcripts : List Transcript
  pub segments : List Segment
  pub scores : List Score
  pub call_scores : List CallScore
  pub flags : List Flag
  pub disputes : List Dispute
  pub calibration_examples : List CalibrationExample
  pub audit_log : List AuditLog
  pub next : Sequences

-- A fresh schema: every table empty, every sequence at 1.
abbrev pub empty_db : Db
empty_db = record {
  orgs = [];
  teams = [];
  advisors = [];
  calls = [];
  processing_jobs = [];
  transcripts = [];
  segments = [];
  scores = [];
  call_scores = [];
  flags = [];
  disputes = [];
  calibration_examples = [];
  audit_log = [];
  next = record {
    calls = 1;
    processing_jobs = 1;
    transcripts = 1;
    segments = 1;
    flags = 1;
    disputes = 1;
    calibration_examples = 1;
  };
}
