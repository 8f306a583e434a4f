-- ===== src/Pipeline/Stages/Redact/Masked.antt =====
-- What the redaction leaves of a call's segments.
use mathlib.Core.Path.{subst}
use callsense.Prelude.{
  ℕ, Bool, true, false, ◌&&◌, String, none, some, List, [], ◌∷◌, ◌++◌, ◌≡◌, ◌∙◌, ◌⊎◌, refl, sym,
  inl, inr, arith, ◌==◌, ==_refl, if◌then◌else◌, select_where, exists_where, All, All-map,
  All-update_where_split, Bool-cases, Option-cases,
}
use callsense.Models.Tables.{Text, Transcript, Segment, Db}
use callsense.Pipeline.Stages.Base.{belongs_to, merge_raw_metadata}
use callsense.Pipeline.Stages.Redact.{set_redacted, redact_row, redact_rows, note_found, run}

abbrev pub IsMasked : Segment → Type 0
IsMasked s = (t : Text) × (s.redacted_text ≡ some t)

abbrev is_raw : Segment → Bool
is_raw s = elim s.redacted_text [ none ↦ true | some _ ↦ false ]

abbrev is_raw_row : ℕ → Segment → Bool
is_raw_row id r = r.id == id && is_raw r

not_raw-IsMasked : (s : Segment) → is_raw s ≡ false → IsMasked s
not_raw-IsMasked s h = elim (Option-cases s.redacted_text) [
  | inl e ↦ absurd (ground arith)
  | inr (t, e) ↦ (t, e)
]

-- A segment is masked, or of another call, or one of the rows to come will mask it.
Awaits : (Segment → Bool) → List Segment → Segment → Type 0
Awaits mine rows s =
    (is_raw s ≡ false) ⊎ ((mine s ≡ false) ⊎ (exists_where (is_raw_row s.id) rows ≡ true))

Awaits-tail :
    (mine : Segment → Bool) (r : Segment) (rows : List Segment) (s : Segment)
    → is_raw_row s.id r ≡ false
    → Awaits mine (r ∷ rows) s
    → Awaits mine rows s
unfolding Awaits exists_where
Awaits-tail mine r rows s off (inl h) = inl h
Awaits-tail mine r rows s off (inr (inl h)) = inr (inl h)
Awaits-tail mine r rows s off (inr (inr h)) = inr (inr (ground arith))

module _ (sorted_set : List String → List String) (redact : Text → Text × List String)
    (mine : Segment → Bool) where
  row-Awaits :
      (r : Segment) (rows : List Segment) (db : Db)
      → All (Awaits mine (r ∷ rows)) db.segments
      → All (Awaits mine rows) (redact_row sorted_set redact r db).1.segments
  unfolding Awaits exists_where
  row-Awaits r rows db h = elim (Option-cases r.redacted_text) [
    | inl e ↦ rw e (
        All-update_where_split (Awaits mine (r ∷ rows)) (Awaits mine rows) (λ s. s.id == r.id)
          (set_redacted (redact r.text).0) db.segments (λ s on w. inl refl)
          (λ s off w. Awaits-tail mine r rows s (ground arith) w) h)
    | inr (t, e) ↦ rw e (
        All-map (Awaits mine (r ∷ rows)) (Awaits mine rows) db.segments
          (λ s w. Awaits-tail mine r rows s (ground arith) w) h)
  ]

  rows-Awaits :
      (rows : List Segment) (found : List String) (db : Db)
      → All (Awaits mine rows) db.segments
      → All (Awaits mine []) (redact_rows sorted_set redact rows found db).1.segments
  unfolding redact_rows
  rows-Awaits [] found db h = h
  rows-Awaits (r ∷ rows) found db h =
      let (more, db') = redact_row sorted_set redact r db in
      rows-Awaits rows (found ++ more) db' (row-Awaits r rows db h)

  rows_transcripts :
      (rows : List Segment) (found : List String) (db : Db)
      → (redact_rows sorted_set redact rows found db).1.transcripts ≡ db.transcripts
  unfolding redact_rows
  rows_transcripts [] found db = refl
  rows_transcripts (r ∷ rows) found db =
      let (more, db') = redact_row sorted_set redact r db in
      rows_transcripts rows (found ++ more) db' ∙ ground arith

Awaits-cons :
    (mine : Segment → Bool) (r : Segment) (rows : List Segment) (s : Segment)
    → Awaits mine rows s
    → Awaits mine (r ∷ rows) s
unfolding Awaits exists_where
Awaits-cons mine r rows s (inl h) = inl h
Awaits-cons mine r rows s (inr (inl h)) = inr (inl h)
Awaits-cons mine r rows s (inr (inr h)) = inr (inr (ground arith))

Awaits-own : (mine : Segment → Bool) (s : Segment) (rows : List Segment) → Awaits mine (s ∷ rows) s
unfolding Awaits exists_where
Awaits-own mine s rows = elim (Bool-cases (is_raw s)) [
  | inl e ↦ let same = ==_refl s.id in inr (inr (ground arith))
  | inr e ↦ inl e
]

select_where-cons :
    (mine : Segment → Bool) (s : Segment) (segments : List Segment)
    → select_where mine (s ∷ segments)
      ≡ (if mine s then s ∷ select_where mine segments else select_where mine segments)
unfolding select_where
select_where-cons mine s segments = refl

-- Every row of the call is among those to come.
start-Awaits :
    (mine : Segment → Bool) (segments : List Segment)
    → All (Awaits mine (select_where mine segments)) segments
start-Awaits mine [] = tt
start-Awaits mine (s ∷ segments) =
    subst (λ x. All (Awaits mine x) (s ∷ segments)) (sym (select_where-cons mine s segments))
      (go (mine s) refl (start-Awaits mine segments))
  where
    go :
        (b : Bool)
        → mine s ≡ b
        → All (Awaits mine (select_where mine segments)) segments
        → All
            (Awaits mine (if b then s ∷ select_where mine segments else select_where mine segments))
            (s ∷ segments)
    go true e rest = (
      Awaits-own mine s (select_where mine segments),
      All-map (Awaits mine (select_where mine segments))
          (Awaits mine (s ∷ select_where mine segments)) segments
          (λ x w. Awaits-cons mine s (select_where mine segments) x w) rest,
    )
    go false e rest = (unfold Awaits in inr (inl e), rest)

select_where-IsMasked :
    (mine : Segment → Bool) (segments : List Segment)
    → All (Awaits mine []) segments
    → All IsMasked (select_where mine segments)
unfolding Awaits select_where exists_where
select_where-IsMasked mine [] h = tt
select_where-IsMasked mine (s ∷ segments) (inl raw, h) = elim (Bool-cases (mine s)) [
  | inl e ↦ rw e (not_raw-IsMasked s raw, select_where-IsMasked mine segments h)
  | inr e ↦ rw e (select_where-IsMasked mine segments h)
]
select_where-IsMasked mine (s ∷ segments) (inr (inl off), h) =
    rw off (select_where-IsMasked mine segments h)
select_where-IsMasked mine (s ∷ segments) (inr (inr none_left), h) = absurd (cc)

pub note_found_segments :
    (sorted_set : List String → List String) (redact : Text → Text × List String) (call_id : ℕ)
    (found : List String) (db : Db)
    → let after = note_found sorted_set redact call_id found db in
      (after.segments ≡ db.segments) × (after.transcripts ≡ db.transcripts)
unfolding merge_raw_metadata
note_found_segments sorted_set redact call_id [] db = (refl, refl)
note_found_segments sorted_set redact call_id (k ∷ found) db = (refl, refl)

-- Once the redaction of a call has run, each segment of the call has a redacted text, whatever the
-- patterns find.
pub run-IsMasked :
    (sorted_set : List String → List String) (redact : Text → Text × List String) (call_id : ℕ)
    (db : Db)
    → let after = (run sorted_set redact call_id db).1 in
      All IsMasked (select_where (belongs_to call_id after) after.segments)
unfolding run
run-IsMasked sorted_set redact call_id db =
    let mine = belongs_to call_id db in
    let rows = select_where mine db.segments in
    let (found, db') = redact_rows sorted_set redact rows [] db in
    let done =
      select_where-IsMasked mine db'.segments
        (rows-Awaits sorted_set redact mine rows [] db (start-Awaits mine db.segments)) in
    let (segs, trans) = note_found_segments sorted_set redact call_id found db' in
    let kept = rows_transcripts sorted_set redact mine rows [] db in
    let shown : List Transcript → List Segment → Type 0 = λ transcripts segments. All IsMasked (
      select_where
        (λ s.
          exists_where (λ (t : Transcript). t.id == s.transcript_id && t.call_id == call_id)
            transcripts)
        segments) in
    let end = note_found sorted_set redact call_id found db' in
    subst (λ x. shown x end.segments) (sym (trans ∙ kept))
      (subst (shown db.transcripts) (sym segs) done)
