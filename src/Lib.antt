-- ===== src/Lib.antt =====
-- CallSense: what happens to a recorded sales call between its arrival and the score and flags that
-- a team leader sees and may overturn.
--
-- A recording that is delivered becomes a call once (backend/ingestion/service.py); it comes by an
-- upload (backend/app/routes/ingest.py), uploads being limited by address
-- (backend/app/ratelimit.py). A call is a row with jobs. A worker (backend/pipeline/worker.py)
-- claims a due job from the job table (backend/pipeline/queue.py), runs its stage
-- (backend/pipeline/stages) in one transaction and moves the job on: done and the next stage
-- enqueued, or failed and due again after a backoff, or dead. The stages transcribe the recording,
-- name its speakers, mask personal data, sort out calls that sell nothing, score the rest against a
-- rubric (backend/analysis) and check that all is there. The analysis believes a model's flag only
-- if its quote stands in the transcript (backend/analysis/verify.py). A flag is disputed and the
-- dispute resolved by requests (backend/app/routes/flags.py, disputes.py over backend/feedback.py),
-- after which the composite is computed again (backend/analysis/recompute.py).
--
-- State. Models/Tables has a record for each table of backend/db/models.py, and Db, a list of rows
-- for each table with the next value of each id sequence; Models/Taxonomy has the enums.
-- Prelude/Rows reads SQL statements as functions on lists: find_where, select_where, update_where,
-- exists_where, count_where. Session has the statements of one transaction as state passing with a
-- result: an exception keeps the database beside it, and rollback (db/session.py) undoes all but
-- the sequences, as PostgreSQL does. What a column takes (Models/Columns) and the foreign key of a
-- call's organisation are checked where a delivery writes; the values that other statements write
-- are taken to fit.
--
-- Numbers. Double is binary64 for the values that are not negative, exactly: a double is a number
-- of units of 2^-1074, and add, sub, mul, div round to 53 bits, ties to even. The doubles that
-- occur are far from overflow, which is not modelled. round_places is Python's round(x, n) as a
-- number of hundredths or thousandths. Times of the queue are natural numbers of microseconds, and
-- so are the delays of the retries: exact products, rounded, where the code multiplies doubles.
-- Texts that the code takes apart are lists of code points.
--
-- Files, by the code they are about (paths from the repository's root):
--   Analysis/Rubric, Rubric/Composite, Rubric/Cap   backend/analysis/rubric.py: compute_composite
--   Analysis/Recompute, Recompute/Fresh             backend/analysis/recompute.py
--   Analysis/Difflib                                difflib.SequenceMatcher.ratio, autojunk included
--   Analysis/Verify, Verify/Windows, Verify/Gate    backend/analysis/verify.py: verify_quote
--   Analysis/Metrics, Schema, Luhn                  backend/analysis/metrics.py, schema.py,
--                                                   redaction.py (_luhn_ok)
--   Analysis/Regex, Redaction and their children    backend/analysis/redaction.py: redact, and as
--                                                   much of Python's re as its patterns use
--   Analysis/Llm and its children                   backend/analysis/llm.py; Llm/Gemini has
--                                                   GeminiLLM, Llm/Mock MockLLM, Llm/Choice get_llm
--   Fixtures, Fixtures/Verbatim                     backend/fixtures.py
--   Transcription/Base                              backend/transcription/base.py
--   Feedback, Feedback/Outcomes, Effects            backend/feedback.py
--   Routes/Disputes and its children                backend/app/routes/flags.py, disputes.py
--   Routes/Ops                                      backend/app/routes/ops.py: requeue
--   Routes/Calls, Calls/Shown                       backend/app/routes/calls.py: call_detail
--   Routes/Calls/Clean                              what the redact stage leaves call_detail to show
--   Pipeline/Queue and its children                 backend/pipeline/queue.py: PostgresJobQueue
--   Pipeline/Transitions                            backend/pipeline/stages/__init__.py: next_stage
--   Pipeline/Worker and its children                backend/pipeline/worker.py
--   Pipeline/Stages/<Stage> and their children      backend/pipeline/stages/<stage>.py: run
--   Pipeline/Stages/Queue, Settled                  the stages under the worker
--   Ingestion/Validation, Envelope, Service         backend/ingestion/validation.py, envelope.py,
--                                                   service.py
--   Ingestion/Adapters                              backend/ingestion/adapters/rest.py
--   Routes/Ingest, Ingest/Twice                     backend/app/routes/ingest.py: upload
--   App/RateLimit, RateLimit/Window                 backend/app/ratelimit.py
--   Transcription/Diarize, Diarize/Turns            backend/transcription/diarize.py: diarise
--   Transcription/Mock                              backend/transcription/mock.py, factory.py,
--                                                   textutils.py
--   Prelude/Strings                                 the methods of str that the code calls
--   Tests and its children                          runs, and instances of the results
--
-- Outside. World (Pipeline/Stages) has what the stages call and src does not hold, or holds as
-- numerical code: the engine, the clustering of voices, the two uses of a language model, the
-- Unicode tables; each is a function, with an error as a possible result where the stage can meet
-- one, and no result on the stages assumes anything of them. The redact stage takes redact from
-- World too; Routes/Calls/Clean sets it to that of Analysis/Redaction. For the clients of language
-- models, the libraries of the providers, json.loads and the change of case are parameters, as are
-- SHA-256, ffprobe and the errors of writing a file for uploads, and so are the classes of letters,
-- digits and spaces for the patterns. Rows locked by other transactions are a predicate, the clock
-- and the random number of a backoff are arguments.
--
-- Loops. Most are structural. Those on fuel: difflib's recursion has the length of its first text:
-- each round takes at least one character out of it, and without fuel it counts no further matches.
-- A repetition in a pattern has the length of the text that is left, of which each round takes a
-- character. run_until_idle has the fuel of the source, max_iterations, and the requests of
-- GeminiLLM._generate that of the source, max_retries.
--
-- Not modelled: the numerical parts of backend/transcription and its Whisper engine, the prompts
-- and the request calls of the language models' vendors, the adapters of backend/ingestion that
-- pull (no route or worker calls them), the summaries and the other read-only routes and the views,
-- the migrations, the demo and the web front end.
pub mod Prelude
pub mod Double
pub mod Models
pub mod Session
pub mod Transcription
pub mod Analysis
pub mod Feedback
pub mod Fixtures
pub mod Ingestion
pub mod App
pub mod Pipeline
pub mod Routes
pub mod Tests
