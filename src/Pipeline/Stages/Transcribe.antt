-- ===== src/Pipeline/Stages/Transcribe.antt =====
-- backend/pipeline/stages/transcribe.py: the transcript and its segments are stored.
use callsense.Prelude.{
  ℕ, suc, String, Option, none, List, [], ◌∷◌, ◌++◌, ◌==◌, if◌then◌else◌, ltb, exists_where,
}
use callsense.Models.Taxonomy.{processing}
use callsense.Models.Tables.{Transcript, Segment}
use callsense.Session.{
  Result, ok, err, integrity_error, Session, pure, lift, select, execute, ◌>>=◌, ◌>>◌,
}
use callsense.Transcription.Base.{TxSegment, TranscriptResult}
use callsense.Pipeline.Stages.Base.{load_call, set_call_status}

abbrev new_transcript : ℕ → TranscriptResult → ℕ → Transcript
new_transcript call_id result id = record {
  id = id;
  call_id = call_id;
  engine = result.engine;
  language = result.language;
  code_switch_ratio = result.code_switch_ratio;
  wer_estimate = result.wer_estimate;
  text = result.text;
}

-- Returns the id of the new row.
unfoldable pub insert_transcript : ℕ → TranscriptResult → Session ℕ
insert_transcript call_id result db = (
  ok db.next.transcripts,
  record db {
    transcripts = db.transcripts ++ new_transcript call_id result db.next.transcripts ∷ [];
    next = record db.next { transcripts = suc db.next.transcripts };
  },
)

abbrev new_segment : ℕ → TxSegment → ℕ → Segment
new_segment tid seg id = record {
  id = id;
  transcript_id = tid;
  idx = seg.idx;
  speaker = seg.speaker;
  start_s = seg.start_s;
  end_s = seg.end_s;
  text = seg.text;
  redacted_text = none;
}

-- The schema checks `end_s >= start_s`.
unfoldable pub insert_segment : ℕ → TxSegment → Session (Unit {0})
insert_segment tid seg db =
    let after = record db { next = record db.next { segments = suc db.next.segments } } in
    if ltb seg.end_s seg.start_s then (err integrity_error, after) else (
      ok tt,
      record after { segments = db.segments ++ new_segment tid seg db.next.segments ∷ [] },
    )

unfoldable pub insert_segments : ℕ → List TxSegment → Session (Unit {0})
insert_segments tid [] = pure tt
insert_segments tid (seg ∷ segments) = do insert_segment tid seg; insert_segments tid segments

-- What a transcriber answers for an audio file, a number of channels and a language.
abbrev pub Transcriber : Type 0
Transcriber = Option String → Option ℕ → Option String → Result TranscriptResult

-- `get_transcriber(call.fixture)`
module _ (get_transcriber : Option String → Transcriber) where
  unfoldable pub transcribe_call : ℕ → Session (Unit {0})
  transcribe_call call_id = do
    call ← load_call call_id
    execute (set_call_status call_id processing)
    result ← lift (get_transcriber call.fixture call.audio_uri call.channels call.language_hint)
    tid ← insert_transcript call_id result
    insert_segments tid result.segments

  unfoldable pub run : ℕ → Session (Unit {0})
  run call_id = do
    exists ← select (λ db. exists_where (λ (t : Transcript). t.call_id == call_id) db.transcripts)
    if exists then pure tt else transcribe_call call_id
