-- ===== src/Routes/Calls.antt =====
-- backend/app/routes/calls.py: one call with all that belongs to it. The names of advisors and teams
-- are left out, as in the tables.
pub mod Shown
pub mod Clean
use callsense.Prelude.{
  ℕ, String, Bool, true, false, ◌&&◌, Option, none, some, List, [], ◌∷◌, ◌++◌, ◌==◌, if◌then◌else◌,
  find_where, map, select_where, sort_by,
}
use callsense.Double.{Double}
use mathlib.Core.Option
use callsense.Models.Taxonomy.{
  CallStatus, JobStage, JobStatus, RubricDimension, FlagTag, FlagSeverity, FlagState,
}
use callsense.Models.Tables.{
  Text, Metadata, Advisor, Call, ProcessingJob, Transcript, Score, CallScore, Flag, Db,
}
use callsense.Session.{http, Session, pure, select, or_raise, ◌>>=◌, ◌>>◌}
use callsense.Transcription.Base.{TxSegment}
use callsense.Pipeline.Stages.Base.{find_call, tx_segments}

-- The columns that the queries select. Of the transcript its text is not among them.
pub record ShownCall : Type 0 where
  pub id : ℕ
  pub status : CallStatus
  pub source : String
  pub called_at : ℕ
  pub duration_s : Option Double
  pub channels : Option ℕ
  pub language_hint : Option String
  pub audio_uri : Option String
  pub raw_metadata : Metadata
  pub advisor_id : Option ℕ
  pub composite : Option ℕ
  pub compliance_capped : Option Bool
  pub rubric_version : Option String

pub record ShownTranscript : Type 0 where
  pub engine : String
  pub language : Option String
  pub code_switch_ratio : Option ℕ
  pub wer_estimate : Option Double

pub record ShownScore : Type 0 where
  pub dimension : RubricDimension
  pub raw_score : ℕ
  pub weight : Double
  pub evidence_quote : Text
  pub evidence_start_s : Option Double
  pub model : String
  pub prompt_hash : String

pub record ShownFlag : Type 0 where
  pub id : ℕ
  pub tag : FlagTag
  pub severity : FlagSeverity
  pub start_s : Option Double
  pub end_s : Option Double
  pub quote : Option Text
  pub reason : Text
  pub confidence : Double
  pub state : FlagState

pub record ShownJob : Type 0 where
  pub stage : JobStage
  pub status : JobStatus
  pub attempts : ℕ
  pub last_error : Option Text

pub record CallDetail : Type 0 where
  pub call : ShownCall
  pub transcript : Option ShownTranscript
  pub segments : List TxSegment
  pub scores : List ShownScore
  pub flags : List ShownFlag
  pub jobs : List ShownJob

abbrev advisor_of : Call → Db → Option Advisor
advisor_of c db = elim c.advisor_id [
  | none ↦ none
  | some id ↦ find_where (λ (a : Advisor). a.id == id) db.advisors
]

abbrev is_timed : Flag → Bool
is_timed f = elim f.start_s [ none ↦ false | some _ ↦ true ]

abbrev is_untimed : Flag → Bool
is_untimed f = elim f.start_s [ none ↦ true | some _ ↦ false ]

abbrev start_of : Flag → Double
start_of f = elim f.start_s [ none ↦ 0 | some t ↦ t ]

-- ORDER BY start_s NULLS LAST, id
unfoldable pub in_order : List Flag → List Flag
in_order flags =
    let by_id = sort_by (λ (f : Flag). f.id) flags in
    sort_by start_of (select_where is_timed by_id) ++ select_where is_untimed by_id

abbrev show_call : Option Advisor → Option CallScore → Call → ShownCall
show_call advisor score c = record {
  id = c.id;
  status = c.status;
  source = c.source;
  called_at = c.called_at;
  duration_s = c.duration_s;
  channels = c.channels;
  language_hint = c.language_hint;
  audio_uri = c.audio_uri;
  raw_metadata = c.raw_metadata;
  advisor_id = Option.map (λ (a : Advisor). a.id) advisor;
  composite = Option.map (λ (r : CallScore). r.composite) score;
  compliance_capped = Option.map (λ (r : CallScore). r.compliance_capped) score;
  rubric_version = Option.map (λ (r : CallScore). r.rubric_version) score;
}

abbrev show_transcript : Transcript → ShownTranscript
show_transcript t = record {
  engine = t.engine;
  language = t.language;
  code_switch_ratio = t.code_switch_ratio;
  wer_estimate = t.wer_estimate;
}

abbrev show_score : Score → ShownScore
show_score s = record {
  dimension = s.dimension;
  raw_score = s.raw_score;
  weight = s.weight;
  evidence_quote = s.evidence_quote;
  evidence_start_s = s.evidence_start_s;
  model = s.model;
  prompt_hash = s.prompt_hash;
}

abbrev show_flag : Flag → ShownFlag
show_flag f = record {
  id = f.id;
  tag = f.tag;
  severity = f.severity;
  start_s = f.start_s;
  end_s = f.end_s;
  quote = f.quote;
  reason = f.reason;
  confidence = f.confidence;
  state = f.state;
}

abbrev show_job : ProcessingJob → ShownJob
show_job j = record {
  stage = j.stage;
  status = j.status;
  attempts = j.attempts;
  last_error = j.last_error;
}

abbrev pub detail_of : ℕ → Db → Call → CallDetail
detail_of call_id db c = record {
  call =
      show_call (advisor_of c db)
        (find_where (λ (r : CallScore). r.call_id == call_id) db.call_scores) c;
  transcript =
      Option.map show_transcript
        (find_where (λ (t : Transcript). t.call_id == call_id) db.transcripts);
  segments = tx_segments call_id true db;
  scores = map show_score (select_where (λ (r : Score). r.call_id == call_id) db.scores);
  flags = map show_flag (in_order (select_where (λ (f : Flag). f.call_id == call_id) db.flags));
  jobs = map show_job (
      sort_by (λ (j : ProcessingJob). j.id)
        (select_where (λ (j : ProcessingJob). j.call_id == call_id) db.processing_jobs));
}

unfoldable pub call_detail : ℕ → Session CallDetail
call_detail call_id = do
  found ← select (find_call call_id)
  call ← or_raise found (http 404)
  select (λ db. detail_of call_id db call)
