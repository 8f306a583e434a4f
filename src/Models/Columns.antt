-- ===== src/Models/Columns.antt =====
-- backend/db/models.py: which values the columns take that a delivery writes. What a column does not
-- take raises a DataError, of the driver or of PostgreSQL.
use Prim.Native.Char.{code}
use Prim.Native.String.{String}
use mathlib.Core.Option
use callsense.Prelude.{
  ℕ, zero, suc, ◌^◌, Bool, true, not, ◌&&◌, Option, none, some, List, [], ◌∷◌, codes, length, leb,
  ltb, ◌==◌,
}
use callsense.Models.Tables.{Json, Metadata, Entity, call_ref, call_row, flag_row}
use callsense.Session.{Error, external}

abbrev pub data_error : Error
data_error = external "DataError"

-- A text without U+0000; JSONB takes none either.
unfoldable pub has_no_nul : List ℕ → Bool
has_no_nul [] = true
has_no_nul (c ∷ s) = let rest = has_no_nul s in not (c == 0) && rest

unfoldable is_blank : String → Bool
is_blank String.[] = true
is_blank (String.◌∷◌ c s) = let rest = is_blank s in code c == b' ' && rest

unfoldable is_short : ℕ → String → Bool
unfolding is_blank
is_short zero s = is_blank s
is_short (suc n) String.[] = true
is_short (suc n) (String.◌∷◌ c s) = is_short n s

-- VARCHAR(n): spaces that are too many at the end are cut off, and what else is too long is an error.
unfoldable pub fits_varchar : ℕ → String → Bool
unfolding is_short
fits_varchar n s = is_short n s && has_no_nul (codes s)

unfoldable pub cut : ℕ → String → String
cut zero s = String.[]
cut (suc n) String.[] = String.[]
cut (suc n) (String.◌∷◌ c s) = String.◌∷◌ c (cut n s)

-- calls.idempotency_key, a VARCHAR(128), taken to have no spaces at its end: it is 64 digits, a colon
-- and a source of at most 50 characters.
abbrev pub fits_key : String → Bool
fits_key s = leb (length (codes s)) 128 && has_no_nul (codes s)

-- TEXT
abbrev pub fits_text : String → Bool
fits_text s = has_no_nul (codes s)

abbrev pub fits_integer : ℕ → Bool
fits_integer n = ltb n (2 ^ 31)

-- A column that may be NULL.
abbrev pub or_null : {A : Type 0} → (A → Bool) → Option A → Bool
or_null fits none = true
or_null fits (some a) = fits a

unfoldable pub all_fit : List String → Bool
all_fit [] = true
all_fit (s ∷ rest) = let later = all_fit rest in fits_text s && later

abbrev json_fits : Json → Bool
json_fits (Json.text s) = fits_text s
json_fits (Json.texts texts) = all_fit texts
json_fits _ = true

-- JSONB
unfoldable pub fits_jsonb : Metadata → Bool
fits_jsonb [] = true
fits_jsonb ((key, value) ∷ rest) =
    let later = fits_jsonb rest in fits_text key && (json_fits value && later)

-- audit_log.entity_id, a VARCHAR(64); an id of a row is short enough.
abbrev pub fits_entity_id : Entity → Bool
fits_entity_id (call_ref id) = or_null (fits_varchar 64) id
fits_entity_id (call_row id) = true
fits_entity_id (flag_row id) = true

abbrev pub stored_entity : Entity → Entity
stored_entity (call_ref id) = call_ref (Option.map (cut 64) id)
stored_entity (call_row id) = call_row id
stored_entity (flag_row id) = flag_row id
