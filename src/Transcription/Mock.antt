-- ===== src/Transcription/Mock.antt =====
-- backend/transcription/mock.py, factory.py and textutils.py: the canned transcripts.
use callsense.Prelude.{
  ℕ, suc, ◌+◌, Bool, false, not, ◌&&◌, ◌||◌, String, Option, some, List, [], ◌∷◌, leb,
  if◌then◌else◌, codes, length, text_eq,
}
use callsense.Double.{from_int, div, round_places}
use callsense.Models.Tables.{Text}
use callsense.Session.{Result, ok}
use callsense.Analysis.Verify.{join, split_from}
use callsense.Fixtures.{Line, get_fixture}
use callsense.Transcription.Base.{TxSegment, TranscriptResult}

abbrev common_en : List Text
common_en =
    codes "the"
    ∷ codes "a"
    ∷ codes "an"
    ∷ codes "is"
    ∷ codes "are"
    ∷ codes "am"
    ∷ codes "and"
    ∷ codes "or"
    ∷ codes "but"
    ∷ codes "for"
    ∷ codes "to"
    ∷ codes "of"
    ∷ codes "in"
    ∷ codes "on"
    ∷ codes "at"
    ∷ codes "it"
    ∷ codes "you"
    ∷ codes "i"
    ∷ codes "we"
    ∷ codes "they"
    ∷ codes "he"
    ∷ codes "she"
    ∷ codes "sir"
    ∷ codes "maam"
    ∷ codes "hello"
    ∷ codes "yes"
    ∷ codes "no"
    ∷ codes "ok"
    ∷ codes "okay"
    ∷ codes "course"
    ∷ codes "fees"
    ∷ codes "data"
    ∷ codes "science"
    ∷ codes "placement"
    ∷ codes "job"
    ∷ codes "trial"
    ∷ codes "emi"
    ∷ codes "otp"
    ∷ codes "card"
    ∷ codes "number"
    ∷ codes "python"
    ∷ codes "sql"
    ∷ codes "support"
    ∷ codes "program"
    ∷ codes "great"
    ∷ codes "perfect"
    ∷ codes "company"
    ∷ codes "student"
    ∷ codes "analytics"
    ∷ []

abbrev is_member : Text → List Text → Bool
is_member word [] = false
is_member word (w ∷ words) = text_eq word w || is_member word words

-- [a-zA-Z]
abbrev is_letter : ℕ → Bool
is_letter c = leb b'a' c && leb c b'z' || leb b'A' c && leb c b'Z'

abbrev count_foreign : List Text → ℕ
count_foreign [] = 0
count_foreign (t ∷ tokens) = (if is_member t common_en then 0 else 1) + count_foreign tokens

abbrev foreign_ratio : List Text → ℕ
foreign_ratio [] = 0
foreign_ratio (t ∷ tokens) =
    round_places 3 (div (from_int (count_foreign (t ∷ tokens))) (from_int (length (t ∷ tokens))))

-- A number of thousandths; the tokens are the longest runs of letters.
unfoldable pub estimate_code_switch : (Text → Text) → Text → ℕ
unfolding split_from
estimate_code_switch lower text =
    foreign_ratio (split_from (λ c. not (is_letter c)) [] (lower text))

-- enumerate(fx["segments"])
abbrev pub numbered : ℕ → List Line → List TxSegment
numbered i [] = []
numbered i (l ∷ lines) =
    record { idx = i; start_s = l.start_s; end_s = l.end_s; text = l.text; speaker = l.speaker }
    ∷ numbered (suc i) lines

abbrev texts : List TxSegment → List Text
texts [] = []
texts (s ∷ segments) = s.text ∷ texts segments

-- MockTranscriber(fixture).transcribe(…), which does not listen.
unfoldable pub mock_transcript : (Text → Text) → Option String → TranscriptResult
unfolding estimate_code_switch join
mock_transcript lower fixture =
    let fx = get_fixture fixture in
    let segments = numbered 0 fx.segments in
    let text = join (texts segments) in
    record {
      engine = "mock";
      language = some fx.language;
      text = text;
      segments = segments;
      code_switch_ratio = some (estimate_code_switch lower text);
      wer_estimate = some 0;
    }

-- `whisper` is the engine of the model that the settings name.
unfoldable pub get_transcriber :
    (Text → Text)
    → (Option String → Option ℕ → Option String → Result TranscriptResult)
    → Bool
    → Option String
    → Option String
    → Option ℕ
    → Option String
    → Result TranscriptResult
get_transcriber lower whisper mock_mode fixture audio_uri channels language =
    if mock_mode then ok (mock_transcript lower fixture) else whisper audio_uri channels language
