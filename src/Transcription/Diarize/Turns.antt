-- ===== src/Transcription/Diarize/Turns.antt =====
-- What diarisation keeps, whichever way it takes.
use callsense.Prelude.{
  ℕ, true, false, String, Option, none, some, List, [], ◌∷◌, ◌≡◌, refl, ◌⊎◌, inl, inr, Bool-cases,
  All₂, All₂-refl,
}
use callsense.Models.Taxonomy.{SpeakerRole, advisor}
use callsense.Transcription.Base.{TxSegment}
use callsense.Transcription.Diarize.{
  Listener, turns_from, turn_fallback, other_speaker, diarise, is_labelled, is_stereo, by_voice,
  by_channel, voice_or_turns, channel_or_voice,
}

-- All but the speaker.
abbrev pub IsRelabelled : TxSegment → TxSegment → Type 0
IsRelabelled s t = t ≡ record s { speaker = t.speaker }

turns_from-IsRelabelled :
    (speaker : SpeakerRole) (segments : List TxSegment)
    → All₂ IsRelabelled segments (turns_from speaker segments)
unfolding turns_from
turns_from-IsRelabelled speaker [] = tt
turns_from-IsRelabelled speaker (s ∷ segments) =
    (refl, turns_from-IsRelabelled (other_speaker speaker) segments)

All₂-trans :
    (xs ys zs : List TxSegment)
    → All₂ IsRelabelled xs ys
    → All₂ IsRelabelled ys zs
    → All₂ IsRelabelled xs zs
All₂-trans [] [] [] h k = tt
All₂-trans [] [] (z ∷ zs) h k = k
All₂-trans [] (y ∷ ys) zs h k = elim h [ ]
All₂-trans (x ∷ xs) [] zs h k = elim h [ ]
All₂-trans (x ∷ xs) (y ∷ ys) [] h k = k
All₂-trans (x ∷ xs) (y ∷ ys) (z ∷ zs) h k = (cc, All₂-trans xs ys zs h.1 k.1)

-- Speakers take turns, and the first is given.
abbrev pub TakesTurns : SpeakerRole → List TxSegment → Type 0
TakesTurns speaker [] = Unit
TakesTurns speaker (s ∷ segments) =
    (s.speaker ≡ speaker) × TakesTurns (other_speaker speaker) segments

turns_from-TakesTurns :
    (speaker : SpeakerRole) (segments : List TxSegment)
    → TakesTurns speaker (turns_from speaker segments)
unfolding turns_from
turns_from-TakesTurns speaker [] = tt
turns_from-TakesTurns speaker (s ∷ segments) =
    (refl, turns_from-TakesTurns (other_speaker speaker) segments)

-- The names come from a listener's answer, or they take turns and the confidence is 0.5.
abbrev pub IsHeard : Listener → Listener → String → List TxSegment × ℕ → Type 0
IsHeard split voice audio_uri (named, confidence) =
    ((s : List TxSegment) × (split audio_uri s ≡ (named, some confidence)))
    ⊎ (((s : List TxSegment) × (voice audio_uri s ≡ (named, some confidence)))
        ⊎ (TakesTurns advisor named × (confidence ≡ 500)))

module _ (split voice : Listener) (audio_uri : String)
    (keep : (s : List TxSegment) → All₂ IsRelabelled s (split audio_uri s).0)
    (keep' : (s : List TxSegment) → All₂ IsRelabelled s (voice audio_uri s).0) where
  voice_lem :
      (segments : List TxSegment) (answer : List TxSegment × Option ℕ)
      → voice audio_uri segments ≡ answer
      → All₂ IsRelabelled segments answer.0
      → All₂ IsRelabelled segments (voice_or_turns answer).0
        × IsHeard split voice audio_uri (voice_or_turns answer)
  unfolding turn_fallback
  voice_lem segments (heard, none) e kept = (
    All₂-trans segments heard (turns_from advisor heard) kept
        (turns_from-IsRelabelled advisor heard),
    inr (inr (turns_from-TakesTurns advisor heard, refl)),
  )
  voice_lem segments (heard, some n) e kept = (kept, inr (inl (segments, e)))

  by_voice_lem :
      (segments : List TxSegment)
      → All₂ IsRelabelled segments (by_voice split voice audio_uri segments).0
        × IsHeard split voice audio_uri (by_voice split voice audio_uri segments)
  by_voice_lem segments = voice_lem segments (voice audio_uri segments) refl (keep' segments)

  channel_lem :
      (segments : List TxSegment) (answer : List TxSegment × Option ℕ)
      → split audio_uri segments ≡ answer
      → All₂ IsRelabelled segments answer.0
      → All₂ IsRelabelled segments (channel_or_voice split voice audio_uri answer).0
        × IsHeard split voice audio_uri (channel_or_voice split voice audio_uri answer)
  channel_lem segments (heard, none) e kept =
      let (kept', ways) = by_voice_lem heard in
      (All₂-trans segments heard (by_voice split voice audio_uri heard).0 kept kept', ways)
  channel_lem segments (heard, some n) e kept = (kept, inl (segments, e))

  by_channel_lem :
      (segments : List TxSegment)
      → All₂ IsRelabelled segments (by_channel split voice audio_uri segments).0
        × IsHeard split voice audio_uri (by_channel split voice audio_uri segments)
  by_channel_lem segments = channel_lem segments (split audio_uri segments) refl (keep segments)

-- If the two ways that listen to this recording change no more than speakers, diarisation changes no
-- more: every segment is there, in order, with its index, times and text. Segments that all have a
-- speaker are left as they are, with confidence 1; any others are named by one of the two ways, with
-- its confidence, or in turns that the advisor begins, with confidence 0.5.
pub diarise_lem :
    (split voice : Listener) (audio_uri : String) (channels : Option ℕ) (segments : List TxSegment)
    → ((s : List TxSegment) → All₂ IsRelabelled s (split audio_uri s).0)
    → ((s : List TxSegment) → All₂ IsRelabelled s (voice audio_uri s).0)
    → All₂ IsRelabelled segments (diarise split voice audio_uri channels segments).0
      × (((is_labelled segments ≡ true)
            × (diarise split voice audio_uri channels segments ≡ (segments, 1000)))
          ⊎ ((is_labelled segments ≡ false)
              × IsHeard split voice audio_uri (diarise split voice audio_uri channels segments)))
unfolding diarise
diarise_lem split voice audio_uri channels segments keep keep' =
    elim (Bool-cases (is_labelled segments)) [
      | inl e ↦ rw e (All₂-refl IsRelabelled (λ s. refl) segments, inl (refl, refl))
      | inr e ↦ elim (Bool-cases (is_stereo channels)) [
        | inl c ↦
            let (kept, ways) = by_channel_lem split voice audio_uri keep keep' segments in
            rw (e, c) (kept, inr (refl, ways))
        | inr c ↦
            let (kept, ways) = by_voice_lem split voice audio_uri keep keep' segments in
            rw (e, c) (kept, inr (refl, ways))
      ]
    ]
