-- ===== src/Tests/Entry.antt =====
-- Deliveries, uploads and diarisation.
use callsense.Prelude.{
  Any, All, find_where, ℕ, ◌*◌, ◌≤◌, true, false, String, none, some, List, [], ◌∷◌, ◌≡◌, ◌⊎◌, refl,
  arith, All₂, count_where, exists_where, select_where, codes,
}
use callsense.Double.{from_int}
use callsense.Models.Tables.{Text, Db, empty_db}
use callsense.Session.{integrity_error, ok, err}
use callsense.Transcription.Base.{TxSegment}
use callsense.Transcription.Diarize.{Listener, diarise, is_labelled}
use callsense.Transcription.Diarize.Turns.{IsRelabelled, IsHeard, diarise_lem}
use callsense.Pipeline.Queue.{second}
use callsense.Ingestion.Validation.{
  AudioInfo, Probed, usable, rejected, probe_audio, succeeded, failed,
}
use callsense.Models.Columns.{data_error, has_no_nul, fits_varchar, fits_jsonb}
use callsense.Ingestion.Service.{
  CallEnvelope, created_as, ingest, insert_call, after_insert, audit_delivery, delivery_fits,
  resolve_advisor,
}
use callsense.Ingestion.Service.Outcomes.{IsIngested, IsAgain, ingest_lem, ingest_twice}
use callsense.App.RateLimit.{upload_rate_limit, admitted_of}
use callsense.App.RateLimit.Window.{in_window, admit_bounded}
use callsense.Pipeline.Stages.Base.{belongs_to}
use callsense.Pipeline.Stages.Redact
use callsense.Routes.Calls.{call_detail, detail_of}
use callsense.Routes.Calls.Shown.{IsRedactedOf, Shows, call_detail-redacted}
use callsense.Tests.Samples.{
  one_org_db, sample_call, transcribed_db, sample_settings, sample_segments,
}

abbrev sample_info : AudioInfo
sample_info = record { channels = 1; duration_s = from_int 3; codec = "pcm"; sample_rate = none }

abbrev sample_probe : String → Probed
sample_probe uri = usable sample_info

abbrev sample_envelope : CallEnvelope
sample_envelope = record {
  source = "rest";
  idempotency_key = "abc:rest";
  audio_uri = "a.wav";
  advisor_external_id = none;
  org_id = none;
  source_call_id = none;
  customer_ref = none;
  channels = none;
  duration_s = none;
  language_hint = none;
  called_at = none;
  raw_metadata = [];
}

probe_runs :
    (probe_audio (failed "") ≡ rejected "ffprobe rejected the file: not decodable")
    × (probe_audio (succeeded [] none) ≡ rejected "no audio stream found")
unfolding probe_audio select_where
probe_runs = (refl, refl)

ingest_lem_example :
    IsIngested 5 sample_envelope one_org_db
      (sample_probe "a.wav")
      (ingest sample_settings sample_probe 5 sample_envelope one_org_db)
ingest_lem_example = ingest_lem sample_settings sample_probe 5 sample_envelope one_org_db

first_delivery :
    (ingest sample_settings sample_probe 5 sample_envelope one_org_db).0 ≡ ok (created_as 1)
unfolding ingest insert_call resolve_advisor after_insert audit_delivery delivery_fits has_no_nul
    fits_varchar fits_jsonb exists_where
first_delivery = refl

-- A fresh schema has no organisation, and the foreign key of the call refuses it.
homeless_delivery :
    (ingest sample_settings sample_probe 5 sample_envelope empty_db).0 ≡ err integrity_error
unfolding ingest insert_call resolve_advisor delivery_fits has_no_nul fits_varchar fits_jsonb
    exists_where
homeless_delivery = refl

-- The stem of a file's name may be too long for the log and short enough for the calls.
abbrev long_stem : String
long_stem = "abcdefghijklmnopqrstuvwxyzabcdefghijklmnopqrstuvwxyzabcdefghijklmnopqrstuvwxyz"

unlogged_refusal :
    (ingest sample_settings
      (λ uri. rejected "no audio stream found")
      5
      (record sample_envelope { source_call_id = some long_stem })
      one_org_db).0
    ≡ err data_error
unfolding ingest audit_delivery has_no_nul fits_varchar
unlogged_refusal = refl

ingest_twice_example :
    let after = (ingest sample_settings sample_probe 5 sample_envelope one_org_db).1 in
    IsAgain sample_envelope sample_info
      (created_as 1)
      after
      (ingest sample_settings sample_probe 6 sample_envelope after)
ingest_twice_example =
    ingest_twice sample_settings sample_probe sample_probe 5 6 sample_envelope sample_envelope
      one_org_db (created_as 1) sample_info refl first_delivery refl refl

abbrev sample_uploads : List (Text × ℕ)
sample_uploads = (codes "ip", second) ∷ (codes "ip", 2 * second) ∷ []

admit_bounded_example :
    count_where
      (in_window (codes "ip") 0 (60 * second))
      (admitted_of upload_rate_limit sample_uploads [])
    ≤ 10
admit_bounded_example =
    admit_bounded upload_rate_limit (codes "ip") 0 0 sample_uploads (omega arith, (omega arith, tt))

-- A listener that gives up.
abbrev deaf : Listener
deaf uri segments = (segments, none)

deaf_keeps : (s : List TxSegment) → All₂ IsRelabelled s (deaf "a.wav" s).0
deaf_keeps [] = tt
deaf_keeps (s ∷ segments) = (refl, deaf_keeps segments)

diarise_lem_example :
    All₂ IsRelabelled sample_segments (diarise deaf deaf "a.wav" (some 2) sample_segments).0
    × (((is_labelled sample_segments ≡ true)
          × (diarise deaf deaf "a.wav" (some 2) sample_segments ≡ (sample_segments, 1000)))
        ⊎ ((is_labelled sample_segments ≡ false)
            × IsHeard deaf deaf "a.wav" (diarise deaf deaf "a.wav" (some 2) sample_segments)))
diarise_lem_example = diarise_lem deaf deaf "a.wav" (some 2) sample_segments deaf_keeps deaf_keeps

abbrev redacted_db : Db
redacted_db = (Redact.run (λ kinds. kinds) (λ words. (words, [])) 1 transcribed_db).1

shown_detail : (call_detail 1 redacted_db).0 ≡ ok (detail_of 1 redacted_db sample_call)
unfolding call_detail Redact.run Redact.redact_rows select_where find_where exists_where
shown_detail = refl

call_detail-redacted_example :
    let rows = select_where (belongs_to 1 redacted_db) redacted_db.segments in
    let shown = (detail_of 1 redacted_db sample_call).segments in
    All (IsRedactedOf rows) shown × All (λ s. Any (Shows s) shown) rows
call_detail-redacted_example =
    call_detail-redacted (λ kinds. kinds) (λ words. (words, [])) 1 transcribed_db
      (detail_of 1 redacted_db sample_call) shown_detail
