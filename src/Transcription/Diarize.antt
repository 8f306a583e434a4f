-- ===== src/Transcription/Diarize.antt =====
-- backend/transcription/diarize.py: which of the ways names the speakers, and the last one. The two
-- that listen to the recording are parameters. They write into the segments, so what they leave
-- there is handed on even when they give up, which is `none`. A confidence is a number of
-- thousandths.
pub mod Turns
use callsense.Prelude.{
  ℕ, suc, Bool, true, false, not, ◌&&◌, String, Option, none, some, List, [], ◌∷◌, leb,
  if◌then◌else◌,
}
use callsense.Models.Taxonomy.{SpeakerRole, advisor, customer, is_unknown}
use callsense.Transcription.Base.{TxSegment}

abbrev pub Listener : Type 0
Listener = String → List TxSegment → List TxSegment × Option ℕ

unfoldable pub all_named : List TxSegment → Bool
all_named [] = true
all_named (s ∷ segments) = not (is_unknown s.speaker) && all_named segments

abbrev pub other_speaker : SpeakerRole → SpeakerRole
other_speaker advisor = customer
other_speaker _ = advisor

unfoldable pub turns_from : SpeakerRole → List TxSegment → List TxSegment
turns_from speaker [] = []
turns_from speaker (s ∷ segments) =
    record s { speaker = speaker } ∷ turns_from (other_speaker speaker) segments

unfoldable pub turn_fallback : List TxSegment → List TxSegment
turn_fallback segments = turns_from advisor segments

abbrev pub is_labelled : List TxSegment → Bool
is_labelled [] = false
is_labelled (s ∷ segments) = all_named (s ∷ segments)

abbrev pub is_stereo : Option ℕ → Bool
is_stereo none = false
is_stereo (some n) = leb 2 n

abbrev pub voice_or_turns : List TxSegment × Option ℕ → List TxSegment × ℕ
voice_or_turns (heard, none) = (turn_fallback heard, 500)
voice_or_turns (heard, some n) = (heard, n)

module _ (channel_split acoustic_diarise : Listener) where
  abbrev pub by_voice : String → List TxSegment → List TxSegment × ℕ
  by_voice audio_uri segments = voice_or_turns (acoustic_diarise audio_uri segments)

  abbrev pub channel_or_voice : String → List TxSegment × Option ℕ → List TxSegment × ℕ
  channel_or_voice audio_uri (heard, none) = by_voice audio_uri heard
  channel_or_voice audio_uri (heard, some n) = (heard, n)

  abbrev pub by_channel : String → List TxSegment → List TxSegment × ℕ
  by_channel audio_uri segments = channel_or_voice audio_uri (channel_split audio_uri segments)

  unfoldable pub diarise : String → Option ℕ → List TxSegment → List TxSegment × ℕ
  diarise audio_uri channels segments =
      if is_labelled segments
      then (segments, 1000)
      else if is_stereo channels
      then by_channel audio_uri segments
      else by_voice audio_uri segments
