-- ===== src/Routes/Ingest/Twice.antt =====
-- What a second upload of a recording does.
use mathlib.Core.Path.{subst}
use callsense.Prelude.{
  ℕ, Bool, true, false, ◌&&◌, String, Option, some, ◌∷◌, Option-cases, ◌≡◌, refl, sym, ap, ◌∙◌, ◌⊎◌,
  inl, inr, arith, ltb, length, Bool-cases,
}
use callsense.Models.Taxonomy.{JobStage}
use callsense.Models.Tables.{Text, Db}
use callsense.Models.Columns.{data_error}
use callsense.Session.{Error, http, Result, ok, err, Session, Result-cases, transaction, rollback}
use callsense.App.RateLimit.{Hits, Admission, admitted, too_many, admit, upload_rate_limit}
use callsense.Pipeline.Queue.{Settings}
use callsense.Ingestion.Validation.{ProbeRun, Probed, usable, rejected, broken, probe_audio}
use callsense.Ingestion.Envelope.{Bytes, derive_idempotency_key}
use callsense.Ingestion.Service.{CallEnvelope, IngestResult, refused, ingest}
use callsense.Ingestion.Service.Outcomes.{IsIngested, ingest_lem, ingest_twice}
use callsense.Ingestion.Adapters.{Files, dest_of, envelope_of, write_bytes, build}
use callsense.Routes.Ingest.{
  UploadForm, IngestResponse, Arrival, State, max_upload_bytes, upload_of, response_of, answer,
  deliver, after_limit, upload,
}

-- The errors of a repeated upload: the limiter's, a write's, a column's, and one of the probe.
abbrev IsFailure : (String → Option Error) → (Files → String → ProbeRun) → Error → Type 0
IsFailure write_error ffprobe e =
    (e ≡ http 429)
    ⊎ ((path : String) × (write_error path ≡ some e))
    ⊎ (e ≡ data_error)
    ⊎ ((files : Files) × (uri : String) × (probe_audio (ffprobe files uri) ≡ broken e))

-- A repeated upload changes no call and no job; it fails, is refused, or has the first one's call.
abbrev pub IsRepeat :
    (String → Option Error)
    → (Files → String → ProbeRun)
    → IngestResponse
    → Db
    → Result IngestResponse × State
    → Type 0
IsRepeat write_error ffprobe first db (out, (_, _, after)) =
    (after.calls ≡ db.calls)
    × (after.processing_jobs ≡ db.processing_jobs)
    × (((e : Error) × (out ≡ err e)
          × IsFailure write_error ffprobe e
          × (after.audit_log ≡ db.audit_log))
        ⊎ ((reason : String) × (out ≡ ok (response_of (refused reason) false)))
        ⊎ ((out
              ≡ ok (record {
                accepted = true;
                created = false;
                call_id = first.call_id;
                reason = some "duplicate";
                processed_inline = false;
              }))
            × (after.audit_log ≡ db.audit_log)))

transaction-ok :
    {A : Type 0} (m : Session A) (db after : Db) (a : A)
    → m db ≡ (ok a, after)
    → transaction m db ≡ (ok a, after)
unfolding transaction
transaction-ok m db after a e = rw e refl

transaction-err :
    {A : Type 0} (m : Session A) (db after : Db) (e : Error)
    → m db ≡ (err e, after)
    → transaction m db ≡ (err e, rollback db after)
unfolding transaction
transaction-err m db after e h = rw h refl

not_ok : {A : Type 0} {e : Error} {a : A} → ◌≡◌ {A = Result A} (err e) (ok a) → ⊥
not_ok p = ground arith

true_not_false : true ≡ false → ⊥
true_not_false p = ground arith

ok_eq : {A : Type 0} {a b : A} → ◌≡◌ {A = Result A} (ok a) (ok b) → a ≡ b
ok_eq p = ground arith

module _ (settings : Settings) (mock_mode : Bool) (sha256_hex : Bytes → String) (store_dir : String)
    (write_error : String → Option Error) (ffprobe : Files → String → ProbeRun)
    (describe : Error → Text) (run_stage : JobStage → ℕ → Session (Unit {0})) where
  abbrev probe : Files → String → Probed
  probe files uri = probe_audio (ffprobe files uri)

  abbrev env_of : Arrival → UploadForm → Files → CallEnvelope × Files
  env_of here form files =
      let dest = dest_of store_dir here.hex (upload_of mock_mode form) in
      (envelope_of sha256_hex dest (upload_of mock_mode form), (dest, form.content) ∷ files)

  abbrev ingested : Arrival → UploadForm → Files → Db → Result IngestResult × Db
  ingested here form files db =
      let (env, stored) = env_of here form files in ingest settings (probe stored) here.now env db

  abbrev uploaded : Arrival → UploadForm → State → Result IngestResponse × State
  uploaded = upload settings mock_mode sha256_hex store_dir write_error ffprobe describe run_stage

  abbrev delivered :
      Arrival → UploadForm → Hits → Result CallEnvelope × Files → Db → Result IngestResponse × State
  delivered = deliver settings mock_mode sha256_hex store_dir write_error ffprobe describe run_stage

  abbrev stored_as : Arrival → UploadForm → State → Result IngestResponse × State
  stored_as here form (hits, files, db) =
      let (env, stored) = env_of here form files in delivered here form hits (ok env, stored) db

  -- An upload that does not come to its delivery.
  abbrev IsTurnedAway : Error → Type 0
  IsTurnedAway e = (e ≡ http 429) ⊎ ((path : String) × (write_error path ≡ some e))

  abbrev is_large : UploadForm → Bool
  is_large form = ltb max_upload_bytes (length form.content)

  abbrev IsUploaded : Arrival → UploadForm → Files → Db → Result IngestResponse × State → Type 0
  IsUploaded here form files db out =
      ((e : Error) × IsTurnedAway e × (later : Hits) × (out ≡ (err e, (later, files, db))))
      ⊎ ((is_large form ≡ true) × (later : Hits) × (out ≡ (err (http 413), (later, files, db))))
      ⊎ ((is_large form ≡ false) × (later : Hits) × (out ≡ stored_as here form (later, files, db)))

  -- The limiter's refusal, a write that fails, a file that is too large, or a delivery.
  upload_cases :
      (here : Arrival) (form : UploadForm) (hits : Hits) (files : Files) (db : Db)
      → IsUploaded here form files db (uploaded here form (hits, files, db))
  unfolding upload build envelope_of
  upload_cases here form hits files db = go (admit upload_rate_limit here.ip here.tick hits)
    where
      go :
          (x : Admission × Hits)
          → IsUploaded here form files db (
              after_limit settings mock_mode sha256_hex store_dir write_error ffprobe describe
                run_stage here form
                (files, db)
                x)
      go (too_many retry, later) = inl (_, inl refl, later, refl)
      go (admitted, later) = elim (Bool-cases (is_large form)) [
        | inl large ↦ inr (inl (large, later, rw large refl))
        | inr small ↦
            let dest = dest_of store_dir here.hex (upload_of mock_mode form) in
            let env = envelope_of sha256_hex dest (upload_of mock_mode form) in
            let write = λ (w : Option Error).
              delivered here form later (write_bytes env form.content files w) db in
            elim (Option-cases (write_error dest)) [
              | inl written ↦ inr (inr (small, later, rw small (ap write written)))
              | inr (e, failed) ↦ inl (e, inr (dest, failed), later, rw small (ap write failed))
            ]
      ]

  module _ (here : Arrival) (form : UploadForm) (hits : Hits) (files : Files) (db : Db)
      (result : IngestResult) (out : (ingested here form files db).0 ≡ ok result) where
    -- The answer repeats it.
    stored_as_lem :
        let after = (ingested here form files db).1 in
        stored_as here form (hits, files, db)
        ≡ answer settings mock_mode sha256_hex store_dir write_error ffprobe describe run_stage here
            form.process
            (hits, (env_of here form files).1)
            (ok result, after)
    stored_as_lem =
        let (env, stored) = env_of here form files in
        let after = (ingested here form files db).1 in
        ap
          (answer settings mock_mode sha256_hex store_dir write_error ffprobe describe run_stage
            here form.process (hits, stored))
          (transaction-ok (ingest settings (probe stored) here.now env) db after result
            (ap (λ o. (o, after)) out))

    -- The worker does not run in a request that it ends with `false`.
    not_drained :
        (form.process && (result.created && mock_mode)) ≡ false
        → stored_as here form (hits, files, db) ≡ (
          ok (response_of result false),
          (hits, (env_of here form files).1, (ingested here form files db).1),
        )
    not_drained idle = stored_as_lem ∙ rw idle refl

  -- The transaction of a delivery that raises is rolled back.
  stored_as-err :
      (here : Arrival) (form : UploadForm) (hits : Hits) (files : Files) (db : Db) (e : Error)
      → (ingested here form files db).0 ≡ err e
      → stored_as here form (hits, files, db)
        ≡ (err e, (hits, (env_of here form files).1, rollback db (ingested here form files db).1))
  stored_as-err here form hits files db e out =
      let (env, stored) = env_of here form files in
      let after = (ingested here form files db).1 in
      ap
        (answer settings mock_mode sha256_hex store_dir write_error ffprobe describe run_stage here
          form.process (hits, stored))
        (transaction-err (ingest settings (probe stored) here.now env) db after e
          (ap (λ o. (o, after)) out))

  and_false : (b c : Bool) → (b && (false && c)) ≡ false
  and_false false c = refl
  and_false true c = refl

  module _ (here here' : Arrival) (form form' : UploadForm) (files files' : Files) (db : Db)
      (hits : Hits) (result : IngestResult) where
    abbrev first_after : Db
    first_after = (ingested here form files db).1

    abbrev IsRepeated : Type 0
    IsRepeated =
        IsRepeat write_error ffprobe (response_of result false) first_after
          (stored_as here' form' (hits, files', first_after))

    failed_repeat :
        (e : Error)
        → IsFailure write_error ffprobe e
        → (ingested here' form' files' first_after).0 ≡ err e
        → IsRepeated
    unfolding rollback
    failed_repeat e why out =
        subst (IsRepeat write_error ffprobe (response_of result false) first_after)
          (sym (stored_as-err here' form' hits files' first_after e out))
          (refl, refl, inl (e, refl, why, refl))

    -- What the second delivery of the same bytes does, by what is made of its file.
    repeat_cases :
        (p : Probed)
        → form'.content ≡ form.content
        → (ingested here form files db).0 ≡ ok result
        → result.accepted ≡ true
        → probe (env_of here' form' files').1 (env_of here' form' files').0.audio_uri ≡ p
        → IsIngested here'.now
            (env_of here' form' files').0
            first_after
            p
            (ingested here' form' files' first_after)
        → IsRepeated
    unfolding envelope_of
    repeat_cases (broken e) same first accepted valid (out, _) =
        failed_repeat e (inr (inr (inr (_, _, valid)))) out
    repeat_cases (rejected reason) same first accepted valid (inl (out, (entry, _, _, left))) =
        subst (IsRepeat write_error ffprobe (response_of result false) first_after)
          (sym (
            not_drained here' form' hits files' first_after (refused reason) out
              (and_false form'.process mock_mode)))
          (ap (λ d. d.calls) left, ap (λ d. d.processing_jobs) left, inr (inl (reason, refl)))
    repeat_cases (rejected reason) same first accepted valid (inr (_, (out, _))) =
        failed_repeat data_error (inr (inr (inl refl))) out
    repeat_cases (usable info) same first accepted valid _ =
        let (env, stored) = env_of here form files in
        let (env', stored') = env_of here' form' files' in
        let key : env'.idempotency_key ≡ env.idempotency_key =
          ap (λ bytes. derive_idempotency_key sha256_hex bytes "rest") same in
        let (how, calls, jobs, log) =
          ingest_twice settings (probe stored) (probe stored') here.now here'.now env env' db result
            info key first accepted valid in
        elim how [
          | inl out ↦
              subst (IsRepeat write_error ffprobe (response_of result false) first_after)
                (sym (
                  not_drained here' form' hits files' first_after _ out
                    (and_false form'.process mock_mode)))
                (calls, jobs, inr (inr (refl, log)))
          | inr (_, out) ↦ failed_repeat data_error (inr (inr (inl refl))) out
        ]

    repeat_lem :
        form'.content ≡ form.content
        → (ingested here form files db).0 ≡ ok result
        → result.accepted ≡ true
        → IsRepeated
    repeat_lem same first accepted =
        let (env', stored') = env_of here' form' files' in
        repeat_cases (probe stored' env'.audio_uri) same first accepted refl
          (ingest_lem settings (probe stored') here'.now env' first_after)

  module _ (here : Arrival) (form : UploadForm) (hits : Hits) (files : Files) (db : Db)
      (later : State) (r : IngestResponse) where
    -- An upload that is accepted and not processed inline is one delivery.
    accepted_cases :
        uploaded here form (hits, files, db) ≡ (ok r, later)
        → r.processed_inline ≡ false
        → (ltb max_upload_bytes (length form.content) ≡ false)
          × (result : IngestResult) × ((ingested here form files db).0 ≡ ok result)
          × (r ≡ response_of result false)
          × (later.2 ≡ (ingested here form files db).1)
    accepted_cases first idle = elim (upload_cases here form hits files db) [
      | inl (_, _, _, e) ↦ absurd (not_ok (ap (λ x. x.0) (sym e ∙ first)))
      | inr (inl (_, _, e)) ↦ absurd (not_ok (ap (λ x. x.0) (sym e ∙ first)))
      | inr (inr (small, admitted_as, e)) ↦ elim (Result-cases (ingested here form files db).0) [
        | inl (failure, out) ↦
            let failed = stored_as-err here form admitted_as files db failure out in
            absurd (not_ok (ap (λ x. x.0) (sym failed ∙ sym e ∙ first)))
        | inr (result, out) ↦
            let answered =
              sym (stored_as_lem here form admitted_as files db result out) ∙ sym e ∙ first in
            let quiet : (form.process && (result.created && mock_mode)) ≡ false =
              ap (λ x. x.processed_inline) (ok_eq (ap (λ x. x.0) answered)) ∙ idle in
            let told =
              sym (not_drained here form admitted_as files db result out quiet) ∙ sym e ∙ first in
            (small, result, out, sym (ok_eq (ap (λ x. x.0) told)), sym (ap (λ x. x.1.2) told))
      ]
    ]

  turned_away : {e : Error} → IsTurnedAway e → IsFailure write_error ffprobe e
  turned_away (inl limited) = inl limited
  turned_away (inr unwritten) = inr (inl unwritten)

  -- If an upload is accepted and not processed inline, an upload of the same bytes that follows it,
  -- under whatever name and with whatever form, changes no call and no job. It fails with the
  -- limiter's error, one of the write, a DataError or an exception of the probe, which leave the
  -- log alone too, or it is refused by ffprobe, or it is accepted as a duplicate with the first
  -- one's call, is not processed inline, and leaves the log alone too.
  pub upload_twice :
      (here here' : Arrival) (form form' : UploadForm) (before later : State) (r : IngestResponse)
      → form'.content ≡ form.content
      → uploaded here form before ≡ (ok r, later)
      → r.accepted ≡ true
      → r.processed_inline ≡ false
      → IsRepeat write_error ffprobe r later.2 (uploaded here' form' later)
  upload_twice here here' form form' (hits, files, db) (hits', files', db') r same first accepted
        idle =
      let (small, result, out, told, left) =
        accepted_cases here form hits files db (hits', files', db') r first idle in
      elim (upload_cases here' form' hits' files' db') [
        | inl (_, why, _, e) ↦
            subst (IsRepeat write_error ffprobe r db') (sym e)
              (refl, refl, inl (_, refl, turned_away why, refl))
        | inr (inl (large, _, _)) ↦ absurd (
            true_not_false
              (sym large ∙ ap (λ bytes. ltb max_upload_bytes (length bytes)) same ∙ small))
        | inr (inr (_, admitted_as, e)) ↦ subst (IsRepeat write_error ffprobe r db') (sym e) (
            subst
              (λ d.
                IsRepeat write_error ffprobe r d (stored_as here' form' (admitted_as, files', d)))
              (sym left)
              (subst
                (λ x.
                  IsRepeat write_error ffprobe x (ingested here form files db).1
                    (stored_as here' form' (admitted_as, files', (ingested here form files db).1)))
                (sym told)
                (repeat_lem here here' form form' files files' db admitted_as result same out
                  (sym (ap (λ x. x.accepted) told) ∙ accepted))))
      ]
