-- ===== src/Ingestion/Service.antt =====
-- backend/ingestion/service.py and envelope.py: a delivery becomes a call with its first job, once.
pub mod Outcomes
use mathlib.Core.Option
use callsense.Prelude.{
  ℕ, suc, Bool, true, false, not, ◌||◌, String, Option, none, some, List, [], ◌∷◌, ◌++◌, ◌==◌, ◌&&◌,
  str_eq, if◌then◌else◌, find_where, exists_where,
}
use callsense.Double.{Double}
use callsense.Models.Taxonomy.{CallStatus, received, transcribe}
use callsense.Models.Tables.{
  Metadata, Team, Advisor, Call, Actor, named, Entity, call_ref, call_row, AuditLog, Db,
}
use callsense.Models.Columns.{
  data_error, cut, fits_key, stored_entity, fits_varchar, fits_text, fits_integer, fits_jsonb,
  fits_entity_id, or_null,
}
use callsense.Session.{
  integrity_error, Session, pure, raise, raise_if, select, execute, ◌>>=◌, ◌>>◌,
}
use callsense.Pipeline.Queue.{Settings, enqueue}
use callsense.Ingestion.Validation.{AudioInfo, Probed, usable, rejected, broken}

pub record CallEnvelope : Type 0 where
  pub source : String
  pub idempotency_key : String
  pub audio_uri : String
  pub advisor_external_id : Option String
  pub org_id : Option ℕ
  pub source_call_id : Option String
  pub customer_ref : Option String
  pub channels : Option ℕ
  pub duration_s : Option Double
  pub language_hint : Option String
  pub called_at : Option ℕ
  pub raw_metadata : Metadata

pub record IngestResult : Type 0 where
  pub accepted : Bool
  pub created : Bool
  pub call_id : Option ℕ
  pub reason : Option String

-- `a or b` on numbers: None and 0 are false.
abbrev pub number_or : Option ℕ → ℕ → ℕ
number_or none n = n
number_or (some k) n = if k == 0 then n else k

abbrev value_or : Option ℕ → ℕ → ℕ
value_or none n = n
value_or (some k) n = k

unfoldable pub member : String → List String → Bool
member x [] = false
member x (y ∷ ys) = let rest = member x ys in if str_eq y x then true else rest

abbrev team_org : ℕ → Option Advisor → Db → Option ℕ × ℕ
team_org default_org none db = (none, default_org)
team_org default_org (some a) db = elim (find_where (λ (t : Team). t.id == a.team_id) db.teams) [
  | none ↦ (none, default_org)
  | some t ↦ (some a.id, t.org_id)
]

-- advisors a JOIN teams t ON t.id = a.team_id WHERE a.external_ids ? :ext LIMIT 1
abbrev pub find_advisor : String → Db → Option Advisor
find_advisor ext db =
    find_where
      (λ (a : Advisor).
        member ext a.external_ids && exists_where (λ (t : Team). t.id == a.team_id) db.teams)
      db.advisors

-- The advisor, if the agent is known, and the organisation.
unfoldable pub resolve_advisor : CallEnvelope → Db → Option ℕ × ℕ
resolve_advisor env db = elim env.advisor_external_id [
  | none ↦ (none, number_or env.org_id 1)
  | some ext ↦
      if str_eq ext ""
      then (none, number_or env.org_id 1)
      else team_org (number_or env.org_id 1) (find_advisor ext db) db
]

abbrev pub has_key : String → Call → Bool
has_key key c = str_eq c.idempotency_key key

abbrev pub new_call : ℕ → CallEnvelope → AudioInfo → Option ℕ × ℕ → ℕ → Call
new_call now env info (advisor_id, org_id) id = record {
  id = id;
  org_id = org_id;
  advisor_id = advisor_id;
  customer_ref = Option.map (cut 200) env.customer_ref;
  source = cut 50 env.source;
  source_call_id = Option.map (cut 200) env.source_call_id;
  idempotency_key = env.idempotency_key;
  audio_uri = some env.audio_uri;
  duration_s = some (number_or env.duration_s info.duration_s);
  called_at = value_or env.called_at now;
  channels = some (number_or env.channels info.channels);
  language_hint = Option.map (cut 20) env.language_hint;
  raw_metadata = env.raw_metadata;
  status = received;
}

-- Whether the parameters of the statements on `calls` fit; the organisation's id is a resolved one.
unfoldable pub delivery_fits : CallEnvelope → AudioInfo → ℕ → Bool
delivery_fits env info org_id =
    or_null fits_text env.advisor_external_id
    && fits_integer org_id
    && or_null (fits_varchar 200) env.customer_ref
    && fits_varchar 50 env.source
    && or_null (fits_varchar 200) env.source_call_id
    && fits_key env.idempotency_key
    && fits_text env.audio_uri
    && fits_integer (number_or env.channels info.channels)
    && or_null (fits_varchar 20) env.language_hint
    && fits_jsonb env.raw_metadata

abbrev pub is_org : ℕ → Db → Bool
is_org org_id db = exists_where (λ (id : ℕ). id == org_id) db.orgs

-- INSERT … ON CONFLICT (idempotency_key) DO NOTHING RETURNING id. The sequence moves also where
-- nothing is inserted; the foreign key of the organisation is checked for a row that is. That of the
-- advisor holds, since the advisor was selected.
unfoldable pub insert_call : ℕ → CallEnvelope → AudioInfo → Option ℕ × ℕ → Session (Option ℕ)
insert_call now env info advisor = do
  raise_if (not (delivery_fits env info advisor.1)) data_error
  taken ← select (λ db. exists_where (has_key env.idempotency_key) db.calls)
  id ← select (λ db. db.next.calls)
  execute (λ db. record db { next = record db.next { calls = suc id } })
  known ← select (is_org advisor.1)
  raise_if (not (taken || known)) integrity_error
  execute (λ db. record db {
    calls = if taken then db.calls else db.calls ++ new_call now env info advisor id ∷ [];
  })
  pure (if taken then none else some id)

abbrev pub entry_fits : Entity → String → CallEnvelope → Bool
entry_fits entity note env =
    fits_entity_id entity && fits_text note && fits_text env.source && fits_text env.audio_uri

abbrev add_entry : String → Entity → String → CallEnvelope → Db → Db
add_entry action entity note env db = record db {
  audit_log =
      db.audit_log
      ++ record {
        actor = named "ingest";
        action = action;
        entity = stored_entity entity;
        before = none;
        after = none;
        note = some note;
        origin = some (env.source, env.audio_uri);
      }
        ∷ [];
}

unfoldable pub audit_delivery : String → Entity → String → CallEnvelope → Session (Unit {0})
audit_delivery action entity note env = do
  raise_if (not (entry_fits entity note env)) data_error
  execute (add_entry action entity note env)

abbrev call_id_of : Option Call → Option ℕ
call_id_of none = none
call_id_of (some c) = some c.id

abbrev pub duplicate_of : Option Call → IngestResult
duplicate_of existing = record {
  accepted = true;
  created = false;
  call_id = call_id_of existing;
  reason = some "duplicate";
}

abbrev pub created_as : ℕ → IngestResult
created_as id = record { accepted = true; created = true; call_id = some id; reason = none }

abbrev pub refused : String → IngestResult
refused reason = record { accepted = false; created = false; call_id = none; reason = some reason }

unfoldable pub after_insert : Settings → ℕ → CallEnvelope → Option ℕ → Session IngestResult
after_insert settings now env none = do
  existing ← select (λ db. find_where (has_key env.idempotency_key) db.calls)
  pure (duplicate_of existing)
after_insert settings now env (some call_id) = do
  execute (enqueue settings call_id transcribe now)
  audit_delivery "create_call" (call_row call_id) "accepted" env
  pure (created_as call_id)

abbrev pub ingest_probed : Settings → ℕ → CallEnvelope → Probed → Session IngestResult
ingest_probed settings now env (broken e) = raise e
ingest_probed settings now env (rejected reason) = do
  audit_delivery "reject_call" (call_ref env.source_call_id) reason env
  pure (refused reason)
ingest_probed settings now env (usable info) = do
  advisor ← select (resolve_advisor env)
  row ← insert_call now env info advisor
  after_insert settings now env row

-- `probe uri` is what validation.py says of the file.
unfoldable pub ingest : Settings → (String → Probed) → ℕ → CallEnvelope → Session IngestResult
ingest settings probe now env = ingest_probed settings now env (probe env.audio_uri)
