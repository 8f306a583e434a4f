-- ===== src/Pipeline/Stages/Diarise.antt =====
-- backend/pipeline/stages/diarise.py: the speakers of the segments are stored.
use callsense.Prelude.{ℕ, false, ◌&&◌, String, Option, List, [], ◌∷◌, ◌==◌, update_where}
use callsense.Models.Tables.{Json, Db}
use callsense.Session.{Result, Session, pure, lift, execute, ◌>>=◌, ◌>>◌}
use callsense.Transcription.Base.{TxSegment}
use callsense.Pipeline.Stages.Base.{
  CallInfo, load_call, load_tx_segments, belongs_to, merge_raw_metadata,
}

-- UPDATE segments SET speaker … WHERE the call's and s.idx = :idx
unfoldable pub set_speaker : ℕ → TxSegment → Db → Db
set_speaker call_id seg db = record db {
  segments =
      update_where (λ s. belongs_to call_id db s && s.idx == seg.idx)
        (λ s. record s { speaker = seg.speaker }) db.segments;
}

unfoldable pub set_speakers : ℕ → List TxSegment → Db → Db
set_speakers call_id [] db = db
set_speakers call_id (seg ∷ labelled) db =
    set_speakers call_id labelled (set_speaker call_id seg db)

-- `diarise_segments(call.audio_uri, call.channels, segments)`: the labels, and the confidence in
-- thousandths.
abbrev pub Diariser : Type 0
Diariser = Option String → Option ℕ → List TxSegment → Result (List TxSegment × ℕ)

module _ (diarise_segments : Diariser) where
  unfoldable pub label : ℕ → CallInfo → List TxSegment → Session (Unit {0})
  label call_id call [] = pure tt
  label call_id call (s ∷ segments) = do
    labelled ← lift (diarise_segments call.audio_uri call.channels (s ∷ segments))
    execute (set_speakers call_id labelled.0)
    execute
        (merge_raw_metadata call_id (("diarisation_confidence", Json.thousandths labelled.1) ∷ []))

  unfoldable pub run : ℕ → Session (Unit {0})
  run call_id = do
    call ← load_call call_id
    segments ← load_tx_segments call_id false
    label call_id call segments
