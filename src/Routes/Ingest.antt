-- ===== src/Routes/Ingest.antt =====
-- backend/app/routes/ingest.py: an upload, from the limit on its address to the inline run of the
-- worker.
pub mod Twice
use callsense.Prelude.{
  ℕ, ◌*◌, Bool, true, false, ◌&&◌, String, Option, none, some, List, [], ◌∷◌, str_eq, ltb, length,
  if◌then◌else◌,
}
use callsense.Models.Taxonomy.{JobStage}
use callsense.Models.Tables.{Text, Json, Metadata, Db}
use callsense.Session.{Error, http, Result, ok, err, Session, transaction}
use callsense.App.RateLimit.{Hits, Admission, admitted, too_many, admit, upload_rate_limit}
use callsense.Pipeline.Queue.{Settings}
use callsense.Pipeline.Worker.{Moment, run_until_idle}
use callsense.Ingestion.Validation.{ProbeRun, probe_audio}
use callsense.Ingestion.Envelope.{Bytes}
use callsense.Ingestion.Service.{CallEnvelope, IngestResult, ingest}
use callsense.Ingestion.Adapters.{Files, FileName, Upload, build}

-- The form; a file without a name has an empty one.
pub record UploadForm : Type 0 where
  pub file : FileName
  pub content : Bytes
  pub advisor_external_id : Option String
  pub org_id : Option ℕ
  pub fixture : Option String
  pub language_hint : Option String
  pub process : Bool

pub record IngestResponse : Type 0 where
  pub accepted : Bool
  pub created : Bool
  pub call_id : Option ℕ
  pub reason : Option String
  pub processed_inline : Bool

-- What the process sees while it serves one upload: the address, the monotonic clock and the
-- database's, the name that uuid4 makes up, and the moments of the inline run.
pub record Arrival : Type 0 where
  pub ip : Text
  pub tick : ℕ
  pub now : ℕ
  pub hex : String
  pub moments : ℕ → Moment

-- The state that uploads change: the limiter's hits, the audio store and the database.
abbrev pub State : Type 0
State = Hits × Files × Db

abbrev pub max_upload_bytes : ℕ
max_upload_bytes = 200 * 1024 * 1024

-- file.filename or "upload.wav"
abbrev or_upload_wav : FileName → FileName
or_upload_wav file =
    if str_eq file.name ""
    then record { name = "upload.wav"; stem = "upload"; suffix = ".wav" }
    else file

-- {"fixture": fixture} if fixture else None
abbrev fixture_extra : Option String → Option Metadata
fixture_extra none = none
fixture_extra (some name) = if str_eq name "" then none else some (("fixture", Json.text name) ∷ [])

abbrev pub upload_of : Bool → UploadForm → Upload
upload_of mock_mode form = record {
  filename = or_upload_wav form.file;
  content = form.content;
  advisor_external_id = form.advisor_external_id;
  org_id = form.org_id;
  customer_ref = none;
  called_at = none;
  language_hint = form.language_hint;
  extra = fixture_extra (if mock_mode then form.fixture else none);
}

abbrev pub response_of : IngestResult → Bool → IngestResponse
response_of result processed = record {
  accepted = result.accepted;
  created = result.created;
  call_id = result.call_id;
  reason = result.reason;
  processed_inline = processed;
}

module _ (settings : Settings) (mock_mode : Bool) (sha256_hex : Bytes → String) (store_dir : String)
    (write_error : String → Option Error) (ffprobe : Files → String → ProbeRun)
    (describe : Error → Text) (run_stage : JobStage → ℕ → Session (Unit {0})) where
  -- The end of the request, after the transaction of `ingest`.
  abbrev pub answer :
      Arrival → Bool → Hits × Files → Result IngestResult × Db → Result IngestResponse × State
  answer here process (hits, files) (err e, db) = (err e, (hits, files, db))
  answer here process (hits, files) (ok result, db) =
      let processed = process && (result.created && mock_mode) in
      let drained = (run_until_idle settings describe run_stage 1000 here.moments 0 db).1 in
      (ok (response_of result processed), (hits, files, if processed then drained else db))

  abbrev pub deliver :
      Arrival → UploadForm → Hits → Result CallEnvelope × Files → Db → Result IngestResponse × State
  deliver here form hits (err e, files) db = (err e, (hits, files, db))
  deliver here form hits (ok env, files) db =
      answer here form.process (hits, files)
        (transaction (ingest settings (λ uri. probe_audio (ffprobe files uri)) here.now env) db)

  abbrev pub store_and_deliver : Arrival → UploadForm → State → Result IngestResponse × State
  store_and_deliver here form (hits, files, db) =
      deliver here form hits
        (build sha256_hex write_error store_dir here.hex (upload_of mock_mode form) files) db

  abbrev pub after_limit :
      Arrival → UploadForm → Files × Db → Admission × Hits → Result IngestResponse × State
  after_limit here form (files, db) (too_many retry, hits) = (err (http 429), (hits, files, db))
  after_limit here form (files, db) (admitted, hits) =
      if ltb max_upload_bytes (length form.content)
      then (err (http 413), (hits, files, db))
      else store_and_deliver here form (hits, files, db)

  unfoldable pub upload : Arrival → UploadForm → State → Result IngestResponse × State
  upload here form (hits, files, db) =
      after_limit here form (files, db) (admit upload_rate_limit here.ip here.tick hits)
