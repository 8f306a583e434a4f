-- ===== src/Ingestion/Validation.antt =====
-- backend/ingestion/validation.py: what is made of the output of ffprobe.
use Prim.Native.String.{◌++◌}
use callsense.Prelude.{
  ℕ, Bool, false, String, Option, none, some, List, [], ◌∷◌, ◌==◌, str_eq, if◌then◌else◌,
  select_where,
}
use callsense.Double.{Double}
use callsense.Session.{Error}

-- A field that is missing is `none`; so is a duration that float() does not take. Durations are not
-- negative.
pub record Stream : Type 0 where
  pub codec_type : Option String
  pub codec_name : Option String
  pub duration : Option Double
  pub channels : Option ℕ
  pub sample_rate : Option ℕ

-- How the run of ffprobe ended: `stderr` is stripped. `unreadable` is a run whose output json.loads,
-- int() or the decoding of its bytes refuses, where the code comes to it, with that exception.
pub data ProbeRun : Type 0 where
  not_on_path timed_out : ProbeRun
  failed : String → ProbeRun
  succeeded : List Stream → Option Double → ProbeRun
  unreadable : Error → ProbeRun

pub record AudioInfo : Type 0 where
  pub channels : ℕ
  pub duration_s : Double
  pub codec : String
  pub sample_rate : Option ℕ

-- `rejected` is the AudioValidationError with its message, `broken` another exception.
pub data Probed : Type 0 where
  usable : AudioInfo → Probed
  rejected : String → Probed
  broken : Error → Probed

abbrev is_audio : Stream → Bool
is_audio s = elim s.codec_type [ none ↦ false | some t ↦ str_eq t "audio" ]

-- The stream's duration, or else the container's.
unfoldable pub first_duration : Option Double → Option Double → Option Double
first_duration none container = container
first_duration (some d) container = some d

abbrev codec_or_unknown : Option String → String
codec_or_unknown none = "unknown"
codec_or_unknown (some c) = c

-- int(stream.get("channels", 0)) or 1
abbrev channels_or_one : Option ℕ → ℕ
channels_or_one none = 1
channels_or_one (some n) = if n == 0 then 1 else n

abbrev pub checked : Stream → Option Double → Probed
checked stream none = rejected "audio has zero/unknown duration"
checked stream (some d) =
    if d == 0
    then rejected "audio has zero/unknown duration"
    else usable (record {
      channels = channels_or_one stream.channels;
      duration_s = d;
      codec = codec_or_unknown stream.codec_name;
      sample_rate = stream.sample_rate;
    })

abbrev pub first_stream : List Stream → Option Double → Probed
first_stream [] container = rejected "no audio stream found"
first_stream (s ∷ streams) container = checked s (first_duration s.duration container)

unfoldable pub probe_audio : ProbeRun → Probed
unfolding first_duration
probe_audio not_on_path = rejected "ffprobe not found on PATH (install ffmpeg to enable validation)"
probe_audio timed_out = rejected "ffprobe timed out"
probe_audio (failed stderr) =
    rejected
      ("ffprobe rejected the file: " ++ (if str_eq stderr "" then "not decodable" else stderr))
probe_audio (succeeded streams container) = first_stream (select_where is_audio streams) container
probe_audio (unreadable e) = broken e
