-- ===== src/Feedback.antt =====
-- backend/feedback.py: disputes, and what a resolution does to the flag, the score and the examples.
pub mod Outcomes
pub mod Effects
use callsense.Prelude.{
  ℕ, suc, ◌+◌, Bool, not, ◌||◌, String, Option, none, some, List, [], ◌∷◌, ◌++◌, ◌==◌, str_eq,
  if◌then◌else◌, find_where, update_where,
}
use callsense.Models.Taxonomy.{
  FlagTag, FlagState, open_, disputed, upheld, dismissed, CalibrationVerdict, true_positive,
  false_positive, is_open, is_disputed,
}
use callsense.Models.Tables.{
  Text, Flag, Dispute, CalibrationExample, Actor, named, advisor_id, Entity, flag_row, AuditLog,
  Sequences, Db,
}
use callsense.Session.{
  ok, err, dispute_error, integrity_error, Session, pure, raise, select, execute, or_raise,
  raise_if, ◌>>=◌, ◌>>◌,
}
use callsense.Analysis.Recompute.{recompute_call_score}

pub record ResolveResult : Type 0 where
  pub dispute_id : ℕ
  pub flag_id : ℕ
  pub call_id : ℕ
  pub new_state : FlagState
  pub composite : Option ℕ
  pub compliance_capped : Option Bool

abbrev pub has_id : ℕ → Flag → Bool
has_id id f = f.id == id

abbrev pub find_flag : ℕ → Db → Option Flag
find_flag id db = find_where (has_id id) db.flags

abbrev pub find_dispute : ℕ → Db → Option Dispute
find_dispute id db = find_where (λ d. d.id == id) db.disputes

abbrev pub set_state : FlagState → Flag → Flag
set_state s f = record f { state = s }

-- UPDATE flags SET state = :s WHERE id = :id
unfoldable pub set_flag_state : ℕ → FlagState → Db → Db
set_flag_state id s db = record db { flags = update_where (has_id id) (set_state s) db.flags }

unfoldable pub insert_dispute : ℕ → Option String → Option ℕ → Db → Db
insert_dispute flag_id note raised_by db = record db {
  disputes =
      db.disputes
      ++ record {
        id = db.next.disputes;
        flag_id = flag_id;
        raised_by = raised_by;
        note = note;
        resolved_by = none;
        resolution = none;
        resolution_note = none;
        resolved_at = none;
      }
        ∷ [];
  next = record db.next { disputes = suc db.next.disputes };
}

unfoldable pub audit : Actor → String → ℕ → FlagState → FlagState → Option String → Db → Db
audit actor action entity_id before after note db = record db {
  audit_log =
      db.audit_log
      ++ record {
        actor = actor;
        action = action;
        entity = flag_row entity_id;
        before = some before;
        after = some after;
        note = note;
        origin = none;
      }
        ∷ [];
}

-- f"advisor:{raised_by}" if raised_by else "advisor"
abbrev pub raiser : Option ℕ → Actor
raiser none = named "advisor"
raiser (some by) = if by == 0 then named "advisor" else advisor_id by

unfoldable pub raise_dispute : ℕ → Option String → Option ℕ → Session ℕ
raise_dispute flag_id note raised_by = do
  found ← select (find_flag flag_id)
  flag ← or_raise found dispute_error
  raise_if (not (is_open flag.state)) dispute_error
  dispute_id ← select (λ db. db.next.disputes)
  execute (insert_dispute flag_id note raised_by)
  execute (set_flag_state flag_id disputed)
  execute (audit (raiser raised_by) "raise_dispute" flag_id open_ disputed note)
  pure dispute_id

-- `resolution not in (FlagState.upheld.value, FlagState.dismissed.value)`
unfoldable pub parse_resolution : String → Option FlagState
parse_resolution resolution =
    if str_eq resolution "upheld"
    then some upheld
    else if str_eq resolution "dismissed"
    then some dismissed
    else none

-- disputes d JOIN flags f ON f.id = d.flag_id WHERE d.id = :id
unfoldable pub join_flag : ℕ → Db → Option (Dispute × Flag)
join_flag dispute_id db = elim (find_dispute dispute_id db) [
  | none ↦ none
  | some d ↦ elim (find_flag d.flag_id db) [ none ↦ none | some f ↦ some (d, f) ]
]

abbrev pub verdict_of : FlagState → CalibrationVerdict
verdict_of upheld = true_positive
verdict_of _ = false_positive

unfoldable pub resolve_row : ℕ → FlagState → Option String → Option String → ℕ → Db → Db
resolve_row dispute_id resolution resolved_by note now db = record db {
  disputes =
      update_where (λ d. d.id == dispute_id)
        (λ d. record d {
          resolution = some resolution;
          resolved_by = resolved_by;
          resolution_note = note;
          resolved_at = some now;
        })
        db.disputes;
}

abbrev next_example : Db → Db
next_example db = record db {
  next = record db.next { calibration_examples = suc db.next.calibration_examples };
}

-- `calibration_examples.quote` is NOT NULL: a flag with no quote violates the constraint.
unfoldable pub insert_example : FlagTag → Option Text → CalibrationVerdict → ℕ → Session (Unit {0})
insert_example tag none verdict dispute_id db = (err integrity_error, next_example db)
insert_example tag (some quote) verdict dispute_id db = (
  ok tt,
  record (next_example db) {
    calibration_examples =
        db.calibration_examples
        ++ record {
          id = db.next.calibration_examples;
          tag = tag;
          quote = quote;
          verdict = verdict;
          source_dispute_id = dispute_id;
        }
          ∷ [];
  },
)

abbrev pub actor_or_leader : Option String → Actor
actor_or_leader none = named "team_leader"
actor_or_leader (some by) = if str_eq by "" then named "team_leader" else named by

abbrev option_map {ℓ κ} : {A : Type ℓ} {B : Type κ} → (A → B) → Option A → Option B
option_map f none = none
option_map f (some a) = some (f a)

unfoldable pub resolve_dispute :
    ℕ → String → Option String → Option String → ℕ → Session ResolveResult
resolve_dispute dispute_id resolution resolved_by resolution_note now = do
  new_state ← or_raise (parse_resolution resolution) dispute_error
  joined ← select (join_flag dispute_id)
  row ← or_raise joined dispute_error
  let flag = row.1
  raise_if (not (is_disputed flag.state)) dispute_error
  execute (resolve_row dispute_id new_state resolved_by resolution_note now)
  execute (set_flag_state flag.id new_state)
  insert_example flag.tag flag.quote (verdict_of new_state) dispute_id
  recomputed ← recompute_call_score flag.call_id
  execute (
      audit (actor_or_leader resolved_by) "resolve_dispute" flag.id disputed new_state
        resolution_note)
  pure (record {
    dispute_id = dispute_id;
    flag_id = flag.id;
    call_id = flag.call_id;
    new_state = new_state;
    composite = option_map (λ r. r.0) recomputed;
    compliance_capped = option_map (λ r. r.1) recomputed;
  })
