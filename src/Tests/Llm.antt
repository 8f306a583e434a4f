-- ===== src/Tests/Llm.antt =====
-- The client of the language models on small answers.
use callsense.Prelude.{
  ℕ, zero, suc, ◌+◌, ◌*◌, ◌≤◌, ◌<◌, true, false, none, some, [], ◌≡◌, ◌⊎◌, refl, arith, All, codes,
  text_eq, is_space,
}
use callsense.Analysis.Llm.{or_empty, extract_json, parse_classify, Parsed}
use callsense.Analysis.Llm.Extract.{fenced, wrap, object_text, extract_json-wrap}
use callsense.Analysis.Llm.Answer.{Justified, parse_classify-Justified}
use callsense.Analysis.Llm.Gemini.{
  Reply, Provider, throttle, answered, failed, no_exception, generate,
}
use callsense.Analysis.Llm.Retry.{Ended, generate_lem}
use callsense.Analysis.Llm.Spacing.{generate-slept, generate-spaced}
use callsense.Analysis.Schema.{is_valid}
use callsense.Transcription.Diarize.{Listener, diarise}
use callsense.Transcription.Mock.{mock_transcript}
use callsense.Analysis.Llm.Mock.{mock_answer, Stands, mock_answer_lem}
use callsense.Analysis.Llm.Choice.{LlmSettings, mock, key_of, get_llm, IsAllowed, get_llm_lem}

extract_json-wrap_example :
    extract_json (wrap (fenced (codes " ") (codes "json") [] (codes "Done.")) (codes "1"))
    ≡ object_text (codes "1")
unfolding is_space
extract_json-wrap_example =
    extract_json-wrap (fenced (codes " ") (codes "json") [] (codes "Done.")) (codes "1") (
      (refl, (refl, (refl, (refl, tt)))),
      tt,
      (refl, tt),
      (refl, (refl, (refl, (refl, (refl, (refl, (refl, tt))))))),
    )

parse_classify-Justified_example :
    Justified
      (λ t. t)
      (some Parsed.not_object)
      (parse_classify (λ t. t) (λ t. some Parsed.not_object) (codes "[1]"))
parse_classify-Justified_example =
    parse_classify-Justified (λ t. t) (λ t. some Parsed.not_object) (codes "[1]")

-- A provider that is overloaded at its first attempt and then answers.
abbrev busy_reply : ℕ → Reply
busy_reply zero = answered none
busy_reply (suc zero) = failed (codes "503 UNAVAILABLE")
busy_reply (suc (suc n)) = answered (some (codes "{}"))

abbrev busy_provider : Provider
busy_provider = record {
  reading = λ attempt. record { now = 100 * attempt; later = 100 * attempt + 100 };
  reply = busy_reply;
  random = λ attempt. 0;
}

generate_lem_example :
    let run = generate (λ t. t) 100 3 busy_provider 0 in
    ((◌≡◌ {A = ℕ} 3 0) × (run.requests ≡ 0) × (run.outcome ≡ no_exception))
    ⊎ ((k : ℕ) × (k < 3) × Ended (λ t. t) 100 3 busy_provider 1 run k)
generate_lem_example = generate_lem (λ t. t) 100 3 busy_provider 0

generate-slept_example :
    All (λ d. (1_400_000 ≤ d) × (d ≤ 39_000_000)) (generate (λ t. t) 100 3 busy_provider 0).slept
generate-slept_example = generate-slept (λ t. t) 100 3 busy_provider (λ attempt. omega arith) 0

generate-spaced_example :
    let run = generate (λ t. t) 100 2 busy_provider 0 in 0 + 100 * run.requests ≤ run.last_call_at
unfolding throttle
generate-spaced_example =
    generate-spaced (λ t. t) 100 2 busy_provider 0 (omega arith, (omega arith, tt))

abbrev both_keys : LlmSettings
both_keys = record {
  mock_mode = false;
  llm_provider = some (codes "anthropic");
  gemini_api_key = some (codes "g");
  anthropic_api_key = some (codes "a");
}

get_llm_lem_example :
    ((both_keys.mock_mode ≡ true) × (get_llm (λ t. t) both_keys none ≡ mock none))
    ⊎ ((both_keys.mock_mode ≡ false)
        × IsAllowed
            (text_eq (or_empty both_keys.llm_provider) (codes "gemini"))
            (text_eq (or_empty both_keys.llm_provider) (codes "anthropic"))
            (key_of both_keys.gemini_api_key)
            (key_of both_keys.anthropic_api_key)
            none
            (get_llm (λ t. t) both_keys none))
get_llm_lem_example = get_llm_lem (λ t. t) both_keys none

-- Where the listeners would be asked, they would name nobody.
abbrev deaf : Listener
deaf audio_uri segments = (segments, none)

mock_answer_lem_example :
    let segments = (mock_transcript (λ t. t) (some "no such fixture")).segments in
    let answer = mock_answer (some "no such fixture") in
    (is_valid answer ≡ true)
    × All (λ d. Stands segments d.evidence_quote) answer.dimensions
    × All (λ f. Stands segments f.quote) answer.flags
    × (diarise deaf deaf "call.wav" none segments ≡ (segments, 1000))
mock_answer_lem_example =
    mock_answer_lem (λ t. t) deaf deaf "call.wav" none (some "no such fixture")
