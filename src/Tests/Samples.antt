-- ===== src/Tests/Samples.antt =====
-- Data for the tests: one call, its transcript, an engine, a model and their answers.
use callsense.Prelude.{
  ℕ, ◌+◌, ◌*◌, true, false, ◌&&◌, ◌||◌, none, some, List, [], ◌∷◌, map, ◌==◌, leb, if◌then◌else◌,
  codes,
}
use callsense.Double.{one, from_int}
use callsense.Models.Taxonomy.{
  received, transcribe, pending, advisor, customer, RubricDimension, needs_discovery,
  product_knowledge, objection_handling, compliance_integrity, next_step_booking, over_promising,
  critical, open_,
}
use callsense.Models.Tables.{Text, Call, ProcessingJob, Score, Flag, Db, empty_db}
use callsense.Session.{Error, ok}
use callsense.Transcription.Base.{TxSegment}
use callsense.Analysis.Rubric.{DimScores}
use callsense.Analysis.Schema.{AnalysisResult}
use callsense.Analysis.Verify.{Unicode}
use callsense.Pipeline.Queue.{Settings, JobClaim, second}
use callsense.Pipeline.Stages.{World}
use callsense.Pipeline.Stages.Analyse.{Analyst}
use callsense.Pipeline.Worker.{Moment}

-- The ASCII part of the character tables.
abbrev pub ascii : Unicode
ascii = record {
  lower = map (λ c. if leb 65 c && leb c 90 then c + 32 else c);
  is_word = λ c. leb 48 c && leb c 57 || leb 65 c && leb c 90 || (c == 95) || leb 97 c && leb c 122;
  is_space = λ c. (c == 32) || leb 9 c && leb c 13;
}

abbrev pub sample_segments : List TxSegment
sample_segments =
    record {
      idx = 0;
      start_s = 0;
      end_s = from_int 2;
      text = codes "It is, sure!";
      speaker = advisor;
    }
    ∷ record {
      idx = 1;
      start_s = from_int 2;
      end_s = from_int 3;
      text = codes "ok";
      speaker = customer;
    }
    ∷ []

abbrev pub sample_sheet : DimScores
sample_sheet =
    (needs_discovery, 4)
    ∷ (product_knowledge, 4)
    ∷ (objection_handling, 3)
    ∷ (compliance_integrity, 1)
    ∷ (next_step_booking, 5)
    ∷ []

abbrev pub sample_answer : AnalysisResult
sample_answer = record {
  dimensions =
      record { dimension = needs_discovery; score = 4; evidence_quote = codes "sure" } ∷ [];
  flags = record { tag = over_promising; quote = codes "sure"; reason = []; confidence = one } ∷ [];
}

abbrev pub sample_analyst : Analyst
sample_analyst = record {
  answer = λ fixture transcript calibration n. ok (some sample_answer);
  prompt_hash = λ transcript calibration. "hash";
  model_name = "mock";
}

abbrev pub sample_call : Call
sample_call = record {
  id = 1;
  org_id = 1;
  advisor_id = none;
  customer_ref = none;
  source = "upload";
  source_call_id = none;
  idempotency_key = "key";
  audio_uri = none;
  duration_s = none;
  called_at = 0;
  channels = none;
  language_hint = none;
  raw_metadata = [];
  status = received;
}

-- A fresh schema with one organisation.
abbrev pub one_org_db : Db
one_org_db = record empty_db { orgs = 1 ∷ [] }

abbrev pub sample_settings : Settings
sample_settings = record { job_max_attempts = 3; job_backoff_base = 2 * second }

abbrev pub sample_job : ProcessingJob
sample_job = record {
  id = 1;
  call_id = 1;
  stage = transcribe;
  status = pending;
  attempts = 0;
  max_attempts = 3;
  last_error = none;
  run_after = 5;
  updated_at = 5;
}

abbrev pub queue_db : Db
queue_db = record empty_db {
  calls = sample_call ∷ [];
  processing_jobs = sample_job ∷ [];
  next = record empty_db.next { calls = 2; processing_jobs = 2 };
}

abbrev pub last_claim : JobClaim
last_claim = record { id = 1; call_id = 1; stage = transcribe; attempts = 3; max_attempts = 3 }

-- A call that is transcribed and not yet analysed.
abbrev pub transcribed_db : Db
transcribed_db = record empty_db {
  calls = sample_call ∷ [];
  transcripts =
      record {
        id = 1;
        call_id = 1;
        engine = "mock";
        language = none;
        code_switch_ratio = none;
        wer_estimate = none;
        text = [];
      }
      ∷ [];
  segments =
      record {
        id = 1;
        transcript_id = 1;
        idx = 0;
        speaker = advisor;
        start_s = 0;
        end_s = from_int 2;
        text = codes "It is, sure!";
        redacted_text = none;
      }
      ∷ [];
}

abbrev pub sample_flag : Flag
sample_flag = record {
  id = 7;
  call_id = 1;
  tag = over_promising;
  severity = critical;
  start_s = some 0;
  end_s = some (from_int 2);
  quote = some (codes "sure");
  reason = [];
  confidence = one;
  state = open_;
}

abbrev sample_score : RubricDimension → Score
sample_score dim = record {
  call_id = 1;
  rubric_version = "v1";
  dimension = dim;
  raw_score = 5;
  weight = 0;
  evidence_quote = [];
  evidence_start_s = none;
  model = "mock";
  prompt_hash = "hash";
}

-- A call that is scored, with a critical flag that caps it.
abbrev pub scored_db : Db
scored_db = record empty_db {
  calls = sample_call ∷ [];
  scores = sample_score needs_discovery ∷ sample_score compliance_integrity ∷ [];
  call_scores =
      record { call_id = 1; composite = 4000; rubric_version = "v1"; compliance_capped = true }
      ∷ [];
  flags = sample_flag ∷ [];
}

abbrev pub sample_world : World
sample_world = record {
  unicode = ascii;
  get_transcriber = λ fixture uri channels hint. ok (record {
    engine = "mock";
    language = none;
    text = codes "It is, sure!";
    segments = sample_segments;
    code_switch_ratio = none;
    wer_estimate = none;
  });
  diarise_segments = λ uri channels segments. ok (segments, 1);
  sorted_set = λ kinds. kinds;
  redact_text = λ text. (text, []);
  classify_opening = λ fixture text. ok (record { sales = true; advisor_is_customer = false });
  analyst = sample_analyst;
}

abbrev pub sample_moments : ℕ → Moment
sample_moments n = record { claimed_at = 10; ended_at = 20; locked = λ id. false; random = 0 }

abbrev pub no_text : Error → Text
no_text e = []
