-- ===== src/Tests/Upload.antt =====
-- Two uploads of one recording.
use callsense.Prelude.{true, false, String, none, some, [], ◌∷◌, ◌≡◌, refl, ap, exists_where}
use callsense.Double.{from_int}
use callsense.Session.{Result, ok, transaction}
use callsense.App.RateLimit.{admit, expire, get_hits}
use callsense.Pipeline.Stages.{run_stage}
use callsense.Ingestion.Validation.{ProbeRun, succeeded, probe_audio, first_duration}
use callsense.Ingestion.Envelope.{Bytes}
use callsense.Ingestion.Service.{ingest, insert_call, after_insert}
use callsense.Ingestion.Adapters.{Files, FileName, build}
use callsense.Routes.Ingest.{UploadForm, IngestResponse, Arrival, State, upload}
use callsense.Routes.Ingest.Twice.{IsRepeat, upload_twice}
use callsense.Tests.Samples.{one_org_db, sample_settings, sample_world, sample_moments, no_text}

abbrev sample_hash : Bytes → String
sample_hash bytes = "abc"

abbrev sample_ffprobe : Files → String → ProbeRun
sample_ffprobe files uri =
    succeeded
      (record {
        codec_type = some "audio";
        codec_name = some "pcm";
        duration = none;
        channels = some 2;
        sample_rate = none;
      }
        ∷ [])
      (some (from_int 3))

abbrev upload_form : FileName → UploadForm
upload_form file = record {
  file = file;
  content = 1 ∷ 2 ∷ [];
  advisor_external_id = none;
  org_id = some 1;
  fixture = none;
  language_hint = none;
  process = true;
}

abbrev first_form : UploadForm
first_form = upload_form (record { name = "a.wav"; stem = "a"; suffix = ".wav" })

abbrev second_form : UploadForm
second_form = upload_form (record { name = "b.mp3"; stem = "b"; suffix = ".mp3" })

abbrev first_arrival : Arrival
first_arrival = record { ip = []; tick = 0; now = 5; hex = "x"; moments = sample_moments }

abbrev second_arrival : Arrival
second_arrival = record { ip = []; tick = 7; now = 12; hex = "y"; moments = sample_moments }

abbrev uploaded : Arrival → UploadForm → State → Result IngestResponse × State
uploaded =
    upload sample_settings false sample_hash "/store" (λ path. none) sample_ffprobe no_text
      (run_stage sample_world)

abbrev first_answer : IngestResponse
first_answer = record {
  accepted = true;
  created = true;
  call_id = some 1;
  reason = none;
  processed_inline = false;
}

first_upload : (uploaded first_arrival first_form ([], [], one_org_db)).0 ≡ ok first_answer
unfolding callsense.Models.Columns.fits_varchar callsense.Ingestion.Service.resolve_advisor
    callsense.Ingestion.Service.delivery_fits callsense.Models.Columns.has_no_nul
    callsense.Models.Columns.fits_jsonb callsense.Ingestion.Envelope.derive_idempotency_key
    callsense.Ingestion.Service.audit_delivery upload admit expire callsense.Prelude.select_where
    from_int get_hits callsense.Ingestion.Adapters.envelope_of build transaction ingest probe_audio
    first_duration insert_call after_insert exists_where
first_upload = refl

abbrev first_state : State
first_state = (uploaded first_arrival first_form ([], [], one_org_db)).1

upload_twice_example :
    IsRepeat
      (λ path. none)
      sample_ffprobe
      first_answer
      first_state.2
      (uploaded second_arrival second_form first_state)
upload_twice_example =
    upload_twice sample_settings false sample_hash "/store" (λ path. none) sample_ffprobe no_text
      (run_stage sample_world) first_arrival second_arrival first_form second_form
      ([], [], one_org_db) first_state first_answer refl (ap (λ o. (o, first_state)) first_upload)
      refl refl
