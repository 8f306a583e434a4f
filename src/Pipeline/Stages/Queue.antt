-- ===== src/Pipeline/Stages/Queue.antt =====
-- No stage touches the job table or its sequence: the transitions of jobs are the worker's alone.
use callsense.Prelude.{
  ℕ, Bool, true, false, String, Option, none, some, List, [], ◌∷◌, ◌≡◌, refl, ◌∙◌, ◌++◌,
  if◌then◌else◌, arith, select_where,
}
use callsense.Models.Taxonomy.{CallStatus}
use callsense.Models.Tables.{Text, Metadata, Flag, Segment, Db}
use callsense.Session.{
  Error, Result, ok, err, Session, pure, raise, select, lift, execute, or_raise, ◌>>=◌, ◌>>◌,
}
use callsense.Transcription.Base.{TxSegment, TranscriptResult}
use callsense.Pipeline.Stages.Base.{
  CallInfo, load_call, load_tx_segments, belongs_to, set_call_status, merge_raw_metadata,
}
use callsense.Pipeline.Stages.Transcribe
use callsense.Pipeline.Stages.Diarise
use callsense.Pipeline.Stages.Redact
use callsense.Pipeline.Stages.Classify

abbrev pub SameQueue : Db → Db → Type 0
SameQueue db db' =
    (db'.processing_jobs ≡ db.processing_jobs)
    × (db'.next.processing_jobs ≡ db.next.processing_jobs)

pub record KeepsQueue {A : Type 0} (m : Session A) : Type 0 where
  pub at : (db : Db) → SameQueue db (m db).1

module _ {A : Type 0} where
  pub KeepsQueue-pure : (a : A) → KeepsQueue (pure a)
  KeepsQueue-pure a = record { at = λ db. (refl, refl) }

  pub KeepsQueue-select : (f : Db → A) → KeepsQueue (select f)
  KeepsQueue-select f = record { at = λ db. (refl, refl) }

  pub KeepsQueue-lift : (r : Result A) → KeepsQueue (lift r)
  KeepsQueue-lift r = record { at = λ db. (refl, refl) }

  pub KeepsQueue-or_raise : (o : Option A) (e : Error) → KeepsQueue (or_raise o e)
  KeepsQueue-or_raise none e = record { at = λ db. (refl, refl) }
  KeepsQueue-or_raise (some a) e = record { at = λ db. (refl, refl) }

  pub KeepsQueue-if :
      (b : Bool) (m n : Session A) → KeepsQueue m → KeepsQueue n → KeepsQueue (if b then m else n)
  KeepsQueue-if true m n h k = h
  KeepsQueue-if false m n h k = k

pub KeepsQueue-execute : (f : Db → Db) → ((db : Db) → SameQueue db (f db)) → KeepsQueue (execute f)
KeepsQueue-execute f h = record { at = h }

pub KeepsQueue-bind :
    {A B : Type 0} (m : Session A) (f : A → Session B)
    → KeepsQueue m
    → ((a : A) → KeepsQueue (f a))
    → KeepsQueue (m >>= f)
KeepsQueue-bind {A} {B} m f h k = record { at = λ db. let (r, db') = m db in go r db db' (h.at db) }
  where
    go :
        (r : Result A) (db db' : Db)
        → SameQueue db db'
        → SameQueue db (callsense.Session.and_then r f db').1
    go (err e) db db' s = s
    go (ok a) db db' s = let t = (k a).at db' in (t.0 ∙ s.0, t.1 ∙ s.1)

pub ruleset keeps_queue = (
  KeepsQueue-pure, KeepsQueue-select, KeepsQueue-lift, KeepsQueue-or_raise, KeepsQueue-if,
  KeepsQueue-bind,
)

set_speakers-SameQueue :
    (call_id : ℕ) (segs : List TxSegment) (db : Db)
    → SameQueue db (Diarise.set_speakers call_id segs db)
unfolding Diarise.set_speakers Diarise.set_speaker
set_speakers-SameQueue call_id [] db = (refl, refl)
set_speakers-SameQueue call_id (s ∷ segs) db =
    set_speakers-SameQueue call_id segs (Diarise.set_speaker call_id s db)

module _ (sorted_set : List String → List String) (redact : Text → Text × List String) where
  redact_rows-SameQueue :
      (rows : List Segment) (found : List String) (db : Db)
      → SameQueue db (Redact.redact_rows sorted_set redact rows found db).1
  unfolding Redact.redact_rows
  redact_rows-SameQueue [] found db = (refl, refl)
  redact_rows-SameQueue (r ∷ rows) found db =
      let (more, db') = Redact.redact_row sorted_set redact r db in
      let rest = redact_rows-SameQueue rows (found ++ more) db' in
      (rest.0 ∙ ground arith, rest.1 ∙ ground arith)

  note_found-SameQueue :
      (call_id : ℕ) (found : List String) (db : Db)
      → SameQueue db (Redact.note_found sorted_set redact call_id found db)
  unfolding merge_raw_metadata
  note_found-SameQueue call_id [] db = (refl, refl)
  note_found-SameQueue call_id (k ∷ found) db = (refl, refl)

  pub redact-KeepsQueue : (call_id : ℕ) → KeepsQueue (Redact.run sorted_set redact call_id)
  unfolding Redact.run
  redact-KeepsQueue call_id = record {
    at = λ db.
        let rows = select_where (belongs_to call_id db) db.segments in
        let (found, db') = Redact.redact_rows sorted_set redact rows [] db in
        let s = redact_rows-SameQueue rows [] db in
        let t = note_found-SameQueue call_id found db' in (t.0 ∙ s.0, t.1 ∙ s.1);
  }

pub load_call-KeepsQueue : (id : ℕ) → KeepsQueue (load_call id)
unfolding load_call
load_call-KeepsQueue id = search keeps_queue

pub load_tx_segments-KeepsQueue : (id : ℕ) (b : Bool) → KeepsQueue (load_tx_segments id b)
unfolding load_tx_segments
load_tx_segments-KeepsQueue id b = search keeps_queue

pub set_call_status-KeepsQueue :
    (id : ℕ) (s : CallStatus) → KeepsQueue (execute (set_call_status id s))
unfolding set_call_status
set_call_status-KeepsQueue id s = record { at = λ db. (refl, refl) }

pub merge-KeepsQueue : (id : ℕ) (m : Metadata) → KeepsQueue (execute (merge_raw_metadata id m))
unfolding merge_raw_metadata
merge-KeepsQueue id m = record { at = λ db. (refl, refl) }

pub set_speakers-KeepsQueue :
    (id : ℕ) (segs : List TxSegment) → KeepsQueue (execute (Diarise.set_speakers id segs))
set_speakers-KeepsQueue id segs = record { at = set_speakers-SameQueue id segs }

pub swap_roles-KeepsQueue : (id : ℕ) → KeepsQueue (execute (Classify.swap_roles id))
unfolding Classify.swap_roles
swap_roles-KeepsQueue id = record { at = λ db. (refl, refl) }

pub insert_flag-KeepsQueue : (flag : ℕ → Flag) → KeepsQueue (execute (Classify.insert_flag flag))
unfolding Classify.insert_flag
insert_flag-KeepsQueue flag = record { at = λ db. (refl, refl) }

pub insert_transcript-KeepsQueue :
    (id : ℕ) (r : TranscriptResult) → KeepsQueue (Transcribe.insert_transcript id r)
unfolding Transcribe.insert_transcript
insert_transcript-KeepsQueue id r = record { at = λ db. (refl, refl) }

insert_segment-KeepsQueue :
    (tid : ℕ) (seg : TxSegment) → KeepsQueue (Transcribe.insert_segment tid seg)
unfolding Transcribe.insert_segment
insert_segment-KeepsQueue tid seg = record { at = λ db. (ground arith, ground arith) }

pub insert_segments-KeepsQueue :
    (tid : ℕ) (segs : List TxSegment) → KeepsQueue (Transcribe.insert_segments tid segs)
unfolding Transcribe.insert_segments
insert_segments-KeepsQueue tid [] = search keeps_queue
insert_segments-KeepsQueue tid (seg ∷ segs) =
    KeepsQueue-bind (Transcribe.insert_segment tid seg) (λ _. Transcribe.insert_segments tid segs)
      (insert_segment-KeepsQueue tid seg) (λ _. insert_segments-KeepsQueue tid segs)

pub ruleset writes = (
  keeps_queue, load_call-KeepsQueue, load_tx_segments-KeepsQueue, set_call_status-KeepsQueue,
  merge-KeepsQueue, set_speakers-KeepsQueue, swap_roles-KeepsQueue, insert_flag-KeepsQueue,
  insert_transcript-KeepsQueue, insert_segments-KeepsQueue,
)

module _ (get_transcriber : Option String → Transcribe.Transcriber) where
  transcribe_call-KeepsQueue : (id : ℕ) → KeepsQueue (Transcribe.transcribe_call get_transcriber id)
  unfolding Transcribe.transcribe_call
  transcribe_call-KeepsQueue id = search writes depth 8

  pub transcribe-KeepsQueue : (id : ℕ) → KeepsQueue (Transcribe.run get_transcriber id)
  unfolding Transcribe.run
  transcribe-KeepsQueue id = search (keeps_queue, transcribe_call-KeepsQueue)

module _ (diarise : Diarise.Diariser) where
  label-KeepsQueue :
      (id : ℕ) (call : CallInfo) (segs : List TxSegment)
      → KeepsQueue (Diarise.label diarise id call segs)
  unfolding Diarise.label
  label-KeepsQueue id call [] = search keeps_queue
  label-KeepsQueue id call (s ∷ segs) = search writes

  pub diarise-KeepsQueue : (id : ℕ) → KeepsQueue (Diarise.run diarise id)
  unfolding Diarise.run
  diarise-KeepsQueue id = search (writes, label-KeepsQueue)

module _ (classify : Option String → Text → Result Classify.Verdict) where
  fix_roles-KeepsQueue :
      (id : ℕ) (call : CallInfo) (v : Classify.Verdict)
      → KeepsQueue (Classify.fix_roles classify id call v)
  unfolding Classify.fix_roles
  fix_roles-KeepsQueue id call v = search writes

  finalise-KeepsQueue :
      (id : ℕ) (segs : List TxSegment) → KeepsQueue (Classify.finalise classify id segs)
  unfolding Classify.finalise
  finalise-KeepsQueue id segs = search writes

  classify_call-KeepsQueue : (id : ℕ) → KeepsQueue (Classify.classify_call classify id)
  unfolding Classify.classify_call
  classify_call-KeepsQueue id = search (writes, fix_roles-KeepsQueue, finalise-KeepsQueue) depth 8

  pub classify-KeepsQueue : (id : ℕ) → KeepsQueue (Classify.run classify id)
  unfolding Classify.run
  classify-KeepsQueue id = search (keeps_queue, classify_call-KeepsQueue)
