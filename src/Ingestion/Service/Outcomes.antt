-- ===== src/Ingestion/Service/Outcomes.antt =====
-- What a delivery leaves behind, and what a second one does.
use callsense.Prelude.{
  ℕ, suc, true, false, String, some, List, [], ◌∷◌, ◌++◌, ◌≡◌, refl, ap, ◌∙◌, ◌⊎◌, inl, inr, arith,
  eq_iff, find_where, exists_where, Bool-cases, find_where-append, find_where-none, find_where-some,
}
use callsense.Models.Taxonomy.{transcribe}
use callsense.Models.Tables.{Call, AuditLog, Db, call_ref, call_row}
use callsense.Models.Columns.{data_error, stored_entity, has_no_nul, fits_varchar}
use callsense.Session.{Error, integrity_error, Result, ok, err}
use callsense.Pipeline.Queue.{Settings, enqueue, is_for}
use callsense.Pipeline.Queue.Outcomes.{enqueue_exists}
use callsense.Ingestion.Validation.{AudioInfo, Probed, usable, rejected, broken}
use callsense.Ingestion.Service.{
  CallEnvelope, IngestResult, has_key, new_call, resolve_advisor, insert_call, audit_delivery,
  delivery_fits, entry_fits, is_org, after_insert, duplicate_of, created_as, refused, ingest_probed,
  ingest,
}

-- The one call with the key is there: nothing but a duplicate is reported.
abbrev pub IsDuplicate : CallEnvelope → Db → Result IngestResult × Db → Type 0
IsDuplicate env db (r, after) =
    (c : Call) × (find_where (has_key env.idempotency_key) db.calls ≡ some c)
    × (r ≡ ok (duplicate_of (some c)))
    × (after.calls ≡ db.calls)
    × (after.processing_jobs ≡ db.processing_jobs)
    × (after.audit_log ≡ db.audit_log)

-- A new call, its first job, and one entry of the log.
abbrev pub IsCreated : ℕ → CallEnvelope → AudioInfo → Db → Result IngestResult × Db → Type 0
IsCreated now env info db (r, after) =
    let call = new_call now env info (resolve_advisor env db) db.next.calls in
    (exists_where (has_key env.idempotency_key) db.calls ≡ false)
    × (r ≡ ok (created_as call.id))
    × (after.calls ≡ db.calls ++ call ∷ [])
    × (exists_where (is_for call.id transcribe) after.processing_jobs ≡ true)
    × ((entry : AuditLog) × (after.audit_log ≡ db.audit_log ++ entry ∷ [])
        × (entry.entity ≡ call_row call.id))

-- An exception, and every table as it was.
abbrev pub IsRaised : Error → Db → Result IngestResult × Db → Type 0
IsRaised e db (r, after) = (r ≡ err e) × (after ≡ record db { next = after.next })

-- What becomes of a usable recording.
abbrev pub IsTaken : ℕ → CallEnvelope → AudioInfo → Db → Result IngestResult × Db → Type 0
IsTaken now env info db out =
    let org_id = (resolve_advisor env db).1 in
    ((delivery_fits env info org_id ≡ false) × IsRaised data_error db out)
    ⊎ IsDuplicate env db out
    ⊎ ((exists_where (has_key env.idempotency_key) db.calls ≡ false)
        × (is_org org_id db ≡ false)
        × IsRaised integrity_error db out)
    ⊎ IsCreated now env info db out

entry_fits-accepted :
    (env : CallEnvelope) (info : AudioInfo) (org_id id : ℕ)
    → delivery_fits env info org_id ≡ true
    → entry_fits (call_row id) "accepted" env ≡ true
unfolding delivery_fits has_no_nul fits_varchar
entry_fits-accepted env info org_id id h = ground arith

module _ (settings : Settings) (now : ℕ) (env : CallEnvelope) (info : AudioInfo) (db : Db) where
  accept_cases : IsTaken now env info db (ingest_probed settings now env (usable info) db)
  unfolding insert_call after_insert audit_delivery enqueue
  accept_cases =
      let org_id = (resolve_advisor env db).1 in
      elim (Bool-cases (delivery_fits env info org_id)) [
        | inr e ↦ inl (e, rw e (refl, refl))
        | inl fits ↦ inr (elim (Bool-cases (exists_where (has_key env.idempotency_key) db.calls)) [
          | inl e ↦
              let (c, found) = find_where-some (has_key env.idempotency_key) db.calls e in
              inl (rw (fits, e) (c, found, ap (λ o. ok (duplicate_of o)) found, refl, refl, refl))
          | inr e ↦ inr (elim (Bool-cases (is_org org_id db)) [
            | inr gone ↦ inl (e, gone, rw (fits, e, gone) (refl, refl))
            | inl known ↦ inr (
                rw (fits, e, known, entry_fits-accepted env info org_id db.next.calls fits)
                  (
                    refl,
                    refl,
                    refl,
                    enqueue_exists settings db.next.calls transcribe now (record db {
                      calls =
                          db.calls
                          ++ new_call now env info (resolve_advisor env db) db.next.calls ∷ [];
                      next = record db.next { calls = suc db.next.calls };
                    }),
                    (_, refl, refl),
                  ))
          ])
        ])
      ]

-- An entry of the log, and nothing else.
abbrev pub IsRefused : CallEnvelope → String → Db → Result IngestResult × Db → Type 0
IsRefused env reason db (r, after) =
    (r ≡ ok (refused reason))
    × ((entry : AuditLog) × (entry.entity ≡ stored_entity (call_ref env.source_call_id))
        × (entry.note ≡ some reason)
        × (after ≡ record db { audit_log = db.audit_log ++ entry ∷ [] }))

-- What becomes of a delivery, by what is made of its recording.
abbrev pub IsIngested : ℕ → CallEnvelope → Db → Probed → Result IngestResult × Db → Type 0
IsIngested now env db (broken e) out = IsRaised e db out
IsIngested now env db (rejected reason) out =
    IsRefused env reason db out
    ⊎ ((entry_fits (call_ref env.source_call_id) reason env ≡ false) × IsRaised data_error db out)
IsIngested now env db (usable info) out = IsTaken now env info db out

-- A recording that fails validation leaves one entry of the log and nothing else. One whose key a
-- call has is reported as a duplicate of it and leaves calls, jobs and log alone; any other becomes a
-- new call, under the next id, with a job for the first stage and one entry of the log. A delivery
-- raises only the probe's own exception, or where a column does not take a value of the envelope (for
-- a recording that fails validation, one of the log's columns, or the reason), or where a new
-- recording's organisation is not there; then every table is as before.
pub ingest_lem :
    (settings : Settings) (probe : String → Probed) (now : ℕ) (env : CallEnvelope) (db : Db)
    → IsIngested now env db (probe env.audio_uri) (ingest settings probe now env db)
unfolding ingest audit_delivery
ingest_lem settings probe now env db = go (probe env.audio_uri)
  where
    go : (p : Probed) → IsIngested now env db p (ingest_probed settings now env p db)
    go (broken e) = (refl, refl)
    go (rejected reason) = elim (Bool-cases (entry_fits (call_ref env.source_call_id) reason env)) [
      | inl fits ↦ inl (rw fits (refl, (_, refl, refl, refl)))
      | inr long ↦ inr (long, rw long (refl, refl))
    ]
    go (usable info) = accept_cases settings now env info db

find_key-snoc :
    (key : String) (calls : List Call) (c : Call)
    → exists_where (has_key key) calls ≡ false
    → c.idempotency_key ≡ key
    → find_where (has_key key) (calls ++ c ∷ []) ≡ some c
unfolding find_where
find_key-snoc key calls c absent own =
    find_where-append (has_key key) calls (c ∷ [])
    ∙ rw (find_where-none (has_key key) calls absent)
        (rw ((eq_iff c.idempotency_key key).1 own) refl)

-- An accepted delivery leaves a call with its key, and names it.
accepted-held :
    (settings : Settings) (now : ℕ) (env : CallEnvelope) (db : Db) (r : IngestResult) (p : Probed)
    → (ingest_probed settings now env p db).0 ≡ ok r
    → r.accepted ≡ true
    → (c : Call) × (find_where
          (has_key env.idempotency_key)
          (ingest_probed settings now env p db).1.calls
        ≡ some c)
      × (r.call_id ≡ some c.id)
unfolding audit_delivery
accepted-held settings now env db r (broken e) first accepted = absurd (ground arith)
accepted-held settings now env db r (rejected reason) first accepted =
    absurd (elim (Bool-cases (entry_fits (call_ref env.source_call_id) reason env)) [
      | inl fits ↦ ground arith
      | inr long ↦ ground arith
    ])
accepted-held settings now env db r (usable info) first accepted =
    elim (accept_cases settings now env info db) [
      | inl (_, (out, _)) ↦ absurd (ground arith)
      | inr (inl (c, found, out, calls, _, _)) ↦
          (c, ap (find_where (has_key env.idempotency_key)) calls ∙ found, ground arith)
      | inr (inr (inl (_, _, (out, _)))) ↦ absurd (ground arith)
      | inr (inr (inr (absent, out, calls, _, _))) ↦
          let new = new_call now env info (resolve_advisor env db) db.next.calls in
          (
            new,
            ap (find_where (has_key env.idempotency_key)) calls
                ∙ find_key-snoc env.idempotency_key db.calls new absent refl,
            ground arith,
          )
    ]

-- A duplicate of the first delivery, or a DataError where a column does not take a value.
abbrev pub IsAgain :
    CallEnvelope → AudioInfo → IngestResult → Db → Result IngestResult × Db → Type 0
IsAgain env info first db (out, after) =
    ((out
        ≡ ok (record {
          accepted = true;
          created = false;
          call_id = first.call_id;
          reason = some "duplicate";
        }))
      ⊎ ((delivery_fits env info (resolve_advisor env db).1 ≡ false) × (out ≡ err data_error)))
    × (after.calls ≡ db.calls)
    × (after.processing_jobs ≡ db.processing_jobs)
    × (after.audit_log ≡ db.audit_log)

again_lem :
    (settings : Settings) (now : ℕ) (env : CallEnvelope) (info : AudioInfo) (db : Db)
    (r : IngestResult) (c : Call)
    → find_where (has_key env.idempotency_key) db.calls ≡ some c
    → r.call_id ≡ some c.id
    → IsAgain env info r db (ingest_probed settings now env (usable info) db)
again_lem settings now env info db r c held id = elim (accept_cases settings now env info db) [
  | inl (long, (out, left)) ↦ (
    inr (long, out),
    ap (λ d. d.calls) left,
    ap (λ d. d.processing_jobs) left,
    ap (λ d. d.audit_log) left,
  )
  | inr (inl (c', found, out, calls, jobs, log)) ↦
      let same : c' ≡ c = ground arith in (inl (out ∙ rw (id, same)), calls, jobs, log)
  | inr (inr (inl (absent, _, _))) ↦
      let gone = find_where-none (has_key env.idempotency_key) db.calls absent in
      absurd (ground arith)
  | inr (inr (inr (absent, _, _, _, _))) ↦
      let gone = find_where-none (has_key env.idempotency_key) db.calls absent in
      absurd (ground arith)
]

-- Once a delivery has been accepted, another one with the same key and a valid recording leaves
-- calls, jobs and log as they are, and is accepted as a duplicate with the same call's id, unless a
-- column does not take a value of its envelope, which is a DataError: a double delivery makes one
-- call.
pub ingest_twice :
    (settings : Settings) (probe probe' : String → Probed) (now now' : ℕ) (env env' : CallEnvelope)
    (db : Db) (r : IngestResult) (info' : AudioInfo)
    → env'.idempotency_key ≡ env.idempotency_key
    → (ingest settings probe now env db).0 ≡ ok r
    → r.accepted ≡ true
    → probe' env'.audio_uri ≡ usable info'
    → let after = (ingest settings probe now env db).1 in
      IsAgain env' info' r after (ingest settings probe' now' env' after)
unfolding ingest
ingest_twice settings probe probe' now now' env env' db r info' key first accepted valid =
    let after = (ingest settings probe now env db).1 in
    let (c, held, id) = accepted-held settings now env db r (probe env.audio_uri) first accepted in
    rw valid (
      again_lem settings now' env' info' after r c
        (ap (λ k. find_where (has_key k) after.calls) key ∙ held) id)
