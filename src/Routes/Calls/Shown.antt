-- ===== src/Routes/Calls/Shown.antt =====
-- What a reader of a call sees of its transcript.
use mathlib.Core.Path.{subst}
use callsense.Prelude.{
  Any, All-map, sort_by-All, sort_by-Any, ℕ, true, String, some, List, [], ◌∷◌, ◌≡◌, refl, arith,
  map, select_where, sort_by, All, Option-cases, inl, inr,
}
use callsense.Models.Tables.{Text, Segment, Db}
use callsense.Session.{ok}
use callsense.Transcription.Base.{TxSegment}
use callsense.Pipeline.Stages.Base.{belongs_to, find_call, tx_segments, tx_segment, shown_text}
use callsense.Pipeline.Stages.Redact
use callsense.Pipeline.Stages.Redact.Masked.{IsMasked, run-IsMasked}
use callsense.Routes.Calls.{CallDetail, call_detail}

-- One of the rows has the index of what is shown, and its text is that row's redacted text.
abbrev pub IsRedactedOf : List Segment → TxSegment → Type 0
IsRedactedOf rows t = Any (λ (s : Segment). (s.idx ≡ t.idx) × (s.redacted_text ≡ some t.text)) rows

All-Any :
    (Q : Segment → Segment → Type 0) (xs : List Segment)
    → All (λ s. Q s s) xs
    → All (λ s. Any (λ r. Q r s) xs) xs
All-Any Q [] h = tt
All-Any Q (x ∷ xs) h = (
  inl h.0,
  All-map (λ s. Any (λ r. Q r s) xs) (λ s. Any (λ r. Q r s) (x ∷ xs)) xs (λ s k. inr k)
      (All-Any Q xs h.1),
)

map-All :
    (P : TxSegment → Type 0) (f : Segment → TxSegment) (xs : List Segment)
    → All (λ s. P (f s)) xs
    → All P (map f xs)
map-All P f [] h = tt
map-All P f (x ∷ xs) h = (h.0, map-All P f xs h.1)

pub tx_segments-redacted :
    (call_id : ℕ) (db : Db)
    → All IsMasked (select_where (belongs_to call_id db) db.segments)
    → All
        (IsRedactedOf (select_where (belongs_to call_id db) db.segments))
        (tx_segments call_id true db)
unfolding tx_segments
tx_segments-redacted call_id db masked =
    let rows = select_where (belongs_to call_id db) db.segments in
    let own =
      All-map IsMasked (λ s. (s.idx ≡ s.idx) × (s.redacted_text ≡ some (shown_text s))) rows
        (λ s (t, e). (refl, rw e refl)) masked in
    map-All (IsRedactedOf rows) (tx_segment true) (sort_by (λ (s : Segment). s.idx) rows) (
      sort_by-All (λ (s : Segment). s.idx) (λ s. IsRedactedOf rows (tx_segment true s)) rows
        (All-Any (λ r s. (r.idx ≡ s.idx) × (r.redacted_text ≡ some (shown_text s))) rows own))

-- A segment of the answer has the index and the redacted text of the row.
abbrev pub Shows : Segment → TxSegment → Type 0
Shows s t = (s.idx ≡ t.idx) × (s.redacted_text ≡ some t.text)

Any-map :
    (P : TxSegment → Type 0) (f : Segment → TxSegment) (xs : List Segment)
    → Any (λ s. P (f s)) xs
    → Any P (map f xs)
Any-map P f [] h = absurd h
Any-map P f (x ∷ xs) (inl h) = inl h
Any-map P f (x ∷ xs) (inr h) = inr (Any-map P f xs h)

-- No row is left out.
rows-shown :
    (call_id : ℕ) (db : Db)
    → All IsMasked (select_where (belongs_to call_id db) db.segments)
    → All
        (λ s. Any (Shows s) (tx_segments call_id true db))
        (select_where (belongs_to call_id db) db.segments)
unfolding tx_segments
rows-shown call_id db masked =
    let rows = select_where (belongs_to call_id db) db.segments in
    let own =
      All-map IsMasked (λ s. Shows s (tx_segment true s)) rows (λ s (t, e). (refl, rw e refl))
        masked in
    All-map (λ s. Any (λ r. Shows s (tx_segment true r)) rows)
      (λ s. Any (Shows s) (map (tx_segment true) (sort_by (λ (s : Segment). s.idx) rows))) rows
      (λ s k.
        Any-map (Shows s) (tx_segment true) (sort_by (λ (s : Segment). s.idx) rows)
          (sort_by-Any (λ (s : Segment). s.idx) (λ r. Shows s (tx_segment true r)) rows k))
      (All-Any (λ r s. Shows s (tx_segment true r)) rows own)

-- After the redaction of a call has run, a reader of the call is shown its transcript, and no text
-- of it but redacted ones: each segment of the answer has the index and the redacted text of one of
-- the call's segments, and each of those is shown so.
pub call_detail-redacted :
    (sorted_set : List String → List String) (redact : Text → Text × List String) (call_id : ℕ)
    (db : Db) (d : CallDetail)
    → (call_detail call_id (Redact.run sorted_set redact call_id db).1).0 ≡ ok d
    → let after = (Redact.run sorted_set redact call_id db).1 in
      let rows = select_where (belongs_to call_id after) after.segments in
      All (IsRedactedOf rows) d.segments × All (λ s. Any (Shows s) d.segments) rows
unfolding call_detail
call_detail-redacted sorted_set redact call_id db d h =
    let after = (Redact.run sorted_set redact call_id db).1 in
    let rows = select_where (belongs_to call_id after) after.segments in
    let masked = run-IsMasked sorted_set redact call_id db in
    let same : tx_segments call_id true after ≡ d.segments =
      elim (Option-cases (find_call call_id after)) [
        | inl e ↦ absurd (ground arith)
        | inr (c, e) ↦ ground arith
      ] in
    subst (λ shown. All (IsRedactedOf rows) shown × All (λ s. Any (Shows s) shown) rows) same
      (tx_segments-redacted call_id after masked, rows-shown call_id after masked)
