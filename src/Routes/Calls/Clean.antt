-- ===== src/Routes/Calls/Clean.antt =====
-- What a reader of a call and a model are shown, with the patterns of backend/analysis/redaction.py
-- in the redact stage.
use callsense.Prelude.{
  ℕ, Bool, true, false, ◌&&◌, String, Option, none, some, List, [], ◌∷◌, ◌++◌, ◌≡◌, refl, sym, inl,
  inr, leb, ◌==◌, All, All-map, All-update_where_split, select_where, Bool-cases,
}
use mathlib.Core.Path.{subst}
use callsense.Models.Tables.{Text, Segment, Db}
use callsense.Transcription.Base.{TxSegment}
use callsense.Analysis.Redaction.{Classes, redact}
use callsense.Analysis.Redaction.Left.{Unmatched, redact-Unmatched}
use callsense.Pipeline.Stages.Base.{belongs_to, tx_segments}
use callsense.Pipeline.Stages.Redact
use callsense.Pipeline.Stages.Redact.Masked.{run-IsMasked, note_found_segments}
use callsense.Routes.Calls.Shown.{IsRedactedOf, tx_segments-redacted}

-- A redacted text, if there is one, has the property.
abbrev IsClean : (Text → Type 0) → Option Text → Type 0
IsClean P none = Unit
IsClean P (some t) = P t

abbrev pub HasClean : (Text → Type 0) → Segment → Type 0
HasClean P s = IsClean P s.redacted_text

module _ (P : Text → Type 0) (sorted_set : List String → List String)
    (mask : Text → Text × List String) (masks : (t : Text) → P (mask t).0) where
  rows-HasClean :
      (rows : List Segment) (found : List String) (db : Db)
      → All (HasClean P) db.segments
      → All (HasClean P) (Redact.redact_rows sorted_set mask rows found db).1.segments
  unfolding Redact.redact_rows
  rows-HasClean [] found db h = h
  rows-HasClean (r ∷ rows) found db h =
      let (more, db') = Redact.redact_row sorted_set mask r db in
      rows-HasClean rows (found ++ more) db' (row r.redacted_text refl)
    where
      row :
          (o : Option Text)
          → r.redacted_text ≡ o
          → All (HasClean P) (Redact.redact_row sorted_set mask r db).1.segments
      row (some t) e = rw e h
      row none e = rw e (
          All-update_where_split (HasClean P) (HasClean P) (λ s. s.id == r.id)
            (Redact.set_redacted (mask r.text).0) db.segments (λ s on k. masks r.text)
            (λ s off k. k) h)

  run-HasClean :
      (call_id : ℕ) (db : Db)
      → All (HasClean P) db.segments
      → All (HasClean P) (Redact.run sorted_set mask call_id db).1.segments
  unfolding Redact.run
  run-HasClean call_id db h =
      let rows = select_where (belongs_to call_id db) db.segments in
      let (found, db') = Redact.redact_rows sorted_set mask rows [] db in
      let (segs, _) = note_found_segments sorted_set mask call_id found db' in
      subst (All (HasClean P)) (sym segs) (rows-HasClean rows [] db h)

select_where-All :
    (Q : Segment → Type 0) (p : Segment → Bool) (xs : List Segment)
    → All Q xs
    → All Q (select_where p xs)
unfolding select_where
select_where-All Q p [] h = tt
select_where-All Q p (x ∷ xs) h = elim (Bool-cases (p x)) [
  | inl e ↦ rw e (h.0, select_where-All Q p xs h.1)
  | inr e ↦ rw e (select_where-All Q p xs h.1)
]

shown-IsClean :
    (P : Text → Type 0) (rows : List Segment) (t : TxSegment)
    → All (HasClean P) rows
    → IsRedactedOf rows t
    → P t.text
shown-IsClean P [] t h k = absurd k
shown-IsClean P (s ∷ rows) t h (inl (_, e)) = subst (IsClean P) e h.0
shown-IsClean P (s ∷ rows) t h (inr k) = shown-IsClean P rows t h.1 k

-- Let capital letters and decimal digits be word characters and no bracket a digit, and let no text
-- that was redacted before hold a PAN. After the redaction of a call has run, no text of the call
-- that is shown to a reader or a model holds one.
pub tx_segments-Unmatched :
    (u : Classes) (sorted_set : List String → List String) (call_id : ℕ) (db : Db)
    → u.is_decimal b'[' ≡ false
    → ((c : ℕ) → (leb b'A' c && leb c b'Z') ≡ true → u.is_word c ≡ true)
    → ((c : ℕ) → u.is_decimal c ≡ true → u.is_word c ≡ true)
    → All (HasClean (Unmatched u none)) db.segments
    → All
        (λ t. Unmatched u none t.text)
        (tx_segments call_id true (Redact.run sorted_set (redact u) call_id db).1)
tx_segments-Unmatched u sorted_set call_id db brackets capitals decimals h =
    let after = (Redact.run sorted_set (redact u) call_id db).1 in
    let rows = select_where (belongs_to call_id after) after.segments in
    let clean =
      select_where-All (HasClean (Unmatched u none)) (belongs_to call_id after) after.segments (
        run-HasClean (Unmatched u none) sorted_set (redact u)
          (redact-Unmatched u brackets capitals decimals) call_id db h) in
    All-map (IsRedactedOf rows) (λ t. Unmatched u none t.text) (tx_segments call_id true after)
      (λ t. shown-IsClean (Unmatched u none) rows t clean)
      (tx_segments-redacted call_id after (run-IsMasked sorted_set (redact u) call_id db))
