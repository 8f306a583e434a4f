-- ===== src/Routes/Disputes/Audit.antt =====
-- backend/db/models.py says of `audit_log`: append-only. The log as a record of what happened to
-- the flags.
use callsense.Prelude.{
  ℕ, String, Option, none, some, List, [], ◌∷◌, ◌++◌, ◌≡◌, refl, sym, ap, ◌∙◌, inl, inr, arith, All,
  All-append, append_assoc, append_nil, update_where,
}
use callsense.Models.Taxonomy.{FlagState, open_, disputed, upheld, dismissed}
use callsense.Models.Tables.{Actor, Flag, Entity, call_ref, call_row, flag_row, AuditLog, Db}
use callsense.Session.{rollback}
use callsense.Analysis.Recompute.{recompute_call_score, write_composite}
use callsense.Feedback.{
  has_id, set_state, set_flag_state, insert_dispute, audit, resolve_row, insert_example,
  parse_resolution, raiser, actor_or_leader,
}
use callsense.Feedback.Effects.{raised, flags-raised, resolved, flags-resolved}
use callsense.Routes.Disputes.Cases.{dispute_flag_cases, resolve_cases}
use callsense.Routes.Disputes.{Request, dispute, decide, handle, serve}

-- What an entry says became of the flags.
abbrev replay_entry : Entity → Option FlagState → List Flag → List Flag
replay_entry (call_ref r) after flags = flags
replay_entry (call_row id) after flags = flags
replay_entry (flag_row id) none flags = flags
replay_entry (flag_row id) (some s) flags = update_where (has_id id) (set_state s) flags

abbrev pub replay : List AuditLog → List Flag → List Flag
replay [] flags = flags
replay (e ∷ entries) flags = replay entries (replay_entry e.entity e.after flags)

-- An entry of a request that was accepted: an open flag was disputed, or a disputed one decided.
abbrev IsMove : Option FlagState → Option FlagState → Type 0
IsMove (some open_) (some disputed) = Unit
IsMove (some disputed) (some upheld) = Unit
IsMove (some disputed) (some dismissed) = Unit
IsMove _ _ = ⊥

abbrev pub IsMoveEntry : AuditLog → Type 0
IsMoveEntry e = IsMove e.before e.after

replay-append :
    (first second : List AuditLog) (flags : List Flag)
    → replay (first ++ second) flags ≡ replay second (replay first flags)
replay-append [] second flags = refl
replay-append (e ∷ first) second flags =
    replay-append first second (replay_entry e.entity e.after flags)

-- The entries that lead from one database to another.
abbrev pub Logged : Db → Db → Type 0
Logged db db' =
    (entries : List AuditLog) × (db'.audit_log ≡ db.audit_log ++ entries)
    × All IsMoveEntry entries
    × (db'.flags ≡ replay entries db.flags)

Logged-then : (a b c : Db) → Logged a b → Logged b c → Logged a c
Logged-then a b c (es, log, moves, flags) (es', log', moves', flags') = (
  es ++ es',
  log' ∙ ap (λ t. t ++ es') log ∙ append_assoc a.audit_log es es',
  All-append IsMoveEntry es es' moves moves',
  flags' ∙ ap (replay es') flags ∙ sym (replay-append es es' a.flags),
)

Logged-rollback : (db after : Db) → Logged db (rollback db after)
unfolding rollback
Logged-rollback db after = ([], sym (append_nil db.audit_log), tt, refl)

parsed-IsMove :
    (resolution : String) (s : FlagState)
    → parse_resolution resolution ≡ some s
    → IsMove (some disputed) (some s)
unfolding parse_resolution
parsed-IsMove resolution upheld p = tt
parsed-IsMove resolution dismissed p = tt
parsed-IsMove resolution _ p = absurd (ground arith)

entry : Actor → String → ℕ → FlagState → FlagState → Option String → AuditLog
entry actor action id before after note = record {
  actor = actor;
  action = action;
  entity = flag_row id;
  before = some before;
  after = some after;
  note = note;
  origin = none;
}

audit_log-raised :
    (flag_id : ℕ) (memo : Option String) (by : Option ℕ) (db : Db)
    → (raised flag_id memo by db).audit_log
      ≡ db.audit_log ++ entry (raiser by) "raise_dispute" flag_id open_ disputed memo ∷ []
unfolding audit set_flag_state insert_dispute entry
audit_log-raised flag_id memo by db = refl

audit_log-resolved :
    (id : ℕ) (s : FlagState) (by memo : Option String) (now : ℕ) (f : Flag) (db : Db)
    → (resolved id s by memo now f db).audit_log
      ≡ db.audit_log ++ entry (actor_or_leader by) "resolve_dispute" f.id disputed s memo ∷ []
unfolding set_flag_state resolve_row insert_example audit recompute_call_score write_composite entry
audit_log-resolved id s by memo now f db = ground arith

handle-Logged : (r : Request) (db : Db) → Logged db (handle r db)
unfolding handle entry set_flag_state
handle-Logged (dispute flag_id memo by) db = elim (dispute_flag_cases flag_id memo by db) [
  | inl (after, e) ↦ rw e (Logged-rollback db after)
  | inr (f, found, opened, e) ↦ rw e (
    entry (raiser by) "raise_dispute" flag_id open_ disputed memo ∷ [],
    audit_log-raised flag_id memo by db,
    (tt, tt),
    flags-raised flag_id memo by db,
  )
]
handle-Logged (decide id resolution by memo now) db =
    elim (resolve_cases id resolution by memo now db) [
      | inl (after, e) ↦ rw e (Logged-rollback db after)
      | inr (s, d, f, p, j, w, e) ↦ rw e (
        entry (actor_or_leader by) "resolve_dispute" f.id disputed s memo ∷ [],
        audit_log-resolved id s by memo now f db,
        (parsed-IsMove resolution s p, tt),
        flags-resolved id s by memo now f db,
      )
    ]

-- Any sequence of dispute and resolve requests, refused ones included, only appends to the audit
-- log; each new entry is of an open flag that was disputed or of a disputed one that was upheld or
-- dismissed; and the new entries, replayed on the flags as they were, give the flags as they are.
pub serve-Logged :
    (requests : List Request) (db : Db)
    → (entries : List AuditLog) × ((serve requests db).audit_log ≡ db.audit_log ++ entries)
      × All IsMoveEntry entries
      × ((serve requests db).flags ≡ replay entries db.flags)
unfolding serve
serve-Logged [] db = ([], sym (append_nil db.audit_log), tt, refl)
serve-Logged (r ∷ requests) db =
    Logged-then db (handle r db) (serve requests (handle r db)) (handle-Logged r db)
      (serve-Logged requests (handle r db))
