-- ===== src/Pipeline/Stages/Redact.antt =====
-- backend/pipeline/stages/redact.py: every segment gets a redacted text, once.
pub mod Masked
use callsense.Prelude.{ℕ, String, none, some, List, [], ◌∷◌, ◌++◌, ◌==◌, select_where, update_where}
use callsense.Models.Tables.{Text, Json, Segment, Db}
use callsense.Session.{Session, select, execute, ◌>>=◌}
use callsense.Pipeline.Stages.Base.{belongs_to, merge_raw_metadata}

abbrev pub set_redacted : Text → Segment → Segment
set_redacted t s = record s { redacted_text = some t }

-- `sorted(set(found))`, and `redact(text)`: the masked text and the kinds found in it.
module _ (sorted_set : List String → List String) (redact : Text → Text × List String) where
  abbrev pub redact_row : Segment → Db → List String × Db
  redact_row r db = elim r.redacted_text [
    | some _ ↦ ([], db)
    | none ↦
        let (redacted, found) = redact r.text in
        (
          found,
          record db {
            segments = update_where (λ s. s.id == r.id) (set_redacted redacted) db.segments;
          },
        )
  ]

  unfoldable pub redact_rows : List Segment → List String → Db → List String × Db
  redact_rows [] all_found db = (all_found, db)
  redact_rows (r ∷ rows) all_found db =
      let (found, db') = redact_row r db in redact_rows rows (all_found ++ found) db'

  abbrev pub note_found : ℕ → List String → Db → Db
  note_found call_id [] db = db
  note_found call_id (k ∷ found) db =
      merge_raw_metadata call_id (("pii_redacted", Json.texts (sorted_set (k ∷ found))) ∷ []) db

  unfoldable pub run : ℕ → Session (Unit {0})
  run call_id = do
    rows ← select (λ db. select_where (belongs_to call_id db) db.segments)
    execute (λ db. let (found, db') = redact_rows rows [] db in note_found call_id found db')
