-- ===== src/Ingestion/Adapters.antt =====
-- backend/ingestion/adapters/rest.py: an upload is written to the audio store and gets an envelope.
use callsense.Prelude.{ℕ, String, Option, none, some, List, [], ◌∷◌, ◌++◌, str_eq, if◌then◌else◌}
use callsense.Models.Tables.{Json, Metadata}
use callsense.Session.{Error, Result, ok, err}
use callsense.Ingestion.Envelope.{Bytes, derive_idempotency_key, store_path}
use callsense.Ingestion.Service.{CallEnvelope}

-- The files, by their paths; the one that was written last comes first.
abbrev pub Files : Type 0
Files = List (String × Bytes)

-- A file's name with what pathlib takes for its stem and its suffix.
pub record FileName : Type 0 where
  pub name : String
  pub stem : String
  pub suffix : String

-- The arguments of `build`.
pub record Upload : Type 0 where
  pub filename : FileName
  pub content : Bytes
  pub advisor_external_id : Option String
  pub org_id : Option ℕ
  pub customer_ref : Option String
  pub called_at : Option ℕ
  pub language_hint : Option String
  pub extra : Option Metadata

abbrev or_no_metadata : Option Metadata → Metadata
or_no_metadata none = []
or_no_metadata (some extra) = extra

-- Path(filename).suffix or ".wav"
abbrev suffix_or_wav : FileName → String
suffix_or_wav filename = if str_eq filename.suffix "" then ".wav" else filename.suffix

-- `store_dir` is resolved, and `hex` is the name that uuid4 makes up.
abbrev pub dest_of : String → String → Upload → String
dest_of store_dir hex up = store_path store_dir hex (suffix_or_wav up.filename)

-- The keys of `extra` come first, and hide the others.
unfoldable pub envelope_of : (Bytes → String) → String → Upload → CallEnvelope
envelope_of sha256_hex dest up = record {
  source = "rest";
  idempotency_key = derive_idempotency_key sha256_hex up.content "rest";
  audio_uri = dest;
  advisor_external_id = up.advisor_external_id;
  org_id = up.org_id;
  source_call_id = some up.filename.stem;
  customer_ref = up.customer_ref;
  channels = none;
  duration_s = none;
  language_hint = up.language_hint;
  called_at = up.called_at;
  raw_metadata = or_no_metadata up.extra ++ ("original_filename", Json.text up.filename.name) ∷ [];
}

-- dest.write_bytes(content), by what the write raises.
abbrev pub write_bytes : CallEnvelope → Bytes → Files → Option Error → Result CallEnvelope × Files
write_bytes env content files (some e) = (err e, files)
write_bytes env content files none = (ok env, (env.audio_uri, content) ∷ files)

-- The write raises what `write_error` says of the path, such as an OSError for a suffix that is too
-- long for a file's name.
unfoldable pub build :
    (Bytes → String)
    → (String → Option Error)
    → String
    → String
    → Upload
    → Files
    → Result CallEnvelope × Files
unfolding envelope_of
build sha256_hex write_error store_dir hex up files =
    let dest = dest_of store_dir hex up in
    write_bytes (envelope_of sha256_hex dest up) up.content files (write_error dest)
