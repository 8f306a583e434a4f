-- ===== src/Pipeline/Stages/Base.antt =====
-- backend/pipeline/stages/base.py: what the stages read and write of a call.
use callsense.Prelude.{
  ℕ, Bool, ◌&&◌, String, Option, none, some, List, [], ◌∷◌, ◌++◌, map, ◌==◌, str_eq, if◌then◌else◌,
  find_where, select_where, update_where, exists_where, codes, sort_by,
}
use callsense.Models.Taxonomy.{CallStatus, SpeakerRole, advisor, customer, unknown}
use callsense.Models.Tables.{Text, Json, Metadata, Call, Transcript, Segment, Db}
use callsense.Session.{value_error, Session, pure, select, or_raise, ◌>>=◌}
use callsense.Transcription.Base.{TxSegment}

pub record CallInfo : Type 0 where
  pub id : ℕ
  pub audio_uri : Option String
  pub channels : Option ℕ
  pub status : CallStatus
  pub fixture : Option String
  pub raw_metadata : Metadata
  pub language_hint : Option String

-- raw_metadata.get(key)
unfoldable pub get_metadata : String → Metadata → Option Json
get_metadata key [] = none
get_metadata key ((k, v) ∷ rest) = if str_eq k key then some v else get_metadata key rest

abbrev text_of : Option Json → Option String
text_of (some (Json.text s)) = some s
text_of _ = none

abbrev pub info_of : Call → CallInfo
info_of c = record {
  id = c.id;
  audio_uri = c.audio_uri;
  channels = c.channels;
  status = c.status;
  fixture = text_of (get_metadata "fixture" c.raw_metadata);
  raw_metadata = c.raw_metadata;
  language_hint = c.language_hint;
}

abbrev pub find_call : ℕ → Db → Option Call
find_call id db = find_where (λ c. c.id == id) db.calls

unfoldable pub load_call : ℕ → Session CallInfo
load_call call_id = do
  found ← select (find_call call_id)
  row ← or_raise found value_error
  pure (info_of row)

-- segments s JOIN transcripts t ON t.id = s.transcript_id WHERE t.call_id = :cid
abbrev pub belongs_to : ℕ → Db → Segment → Bool
belongs_to call_id db s =
    exists_where (λ (t : Transcript). t.id == s.transcript_id && t.call_id == call_id)
      db.transcripts

-- COALESCE(s.redacted_text, s.text)
abbrev pub shown_text : Segment → Text
shown_text s = elim s.redacted_text [ none ↦ s.text | some t ↦ t ]

abbrev pub tx_segment : Bool → Segment → TxSegment
tx_segment redacted s = record {
  idx = s.idx;
  start_s = s.start_s;
  end_s = s.end_s;
  text = if redacted then shown_text s else s.text;
  speaker = s.speaker;
}

unfoldable pub tx_segments : ℕ → Bool → Db → List TxSegment
tx_segments call_id redacted db =
    map (tx_segment redacted)
      (sort_by (λ (s : Segment). s.idx) (select_where (belongs_to call_id db) db.segments))

unfoldable pub load_tx_segments : ℕ → Bool → Session (List TxSegment)
load_tx_segments call_id redacted = select (tx_segments call_id redacted)

abbrev pub with_call : ℕ → (Call → Call) → Db → Db
with_call call_id f db = record db { calls = update_where (λ c. c.id == call_id) f db.calls }

unfoldable pub set_call_status : ℕ → CallStatus → Db → Db
set_call_status call_id status = with_call call_id (λ c. record c { status = status })

-- raw_metadata || patch: the keys of the patch come first, and hide the old ones.
unfoldable pub merge_raw_metadata : ℕ → Metadata → Db → Db
merge_raw_metadata call_id patch =
    with_call call_id (λ c. record c { raw_metadata = patch ++ c.raw_metadata })

abbrev pub speaker_text : SpeakerRole → Text
speaker_text advisor = codes "advisor"
speaker_text customer = codes "customer"
speaker_text unknown = codes "unknown"

-- "\n".join(f"{s.speaker}: {s.text}" for s in segments)
unfoldable pub transcript_text : List TxSegment → Text
transcript_text [] = []
transcript_text (s ∷ []) = speaker_text s.speaker ++ codes ": " ++ s.text
transcript_text (s ∷ t ∷ rest) =
    speaker_text s.speaker ++ codes ": " ++ s.text ++ 10 ∷ transcript_text (t ∷ rest)
