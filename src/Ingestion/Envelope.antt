-- ===== src/Ingestion/Envelope.antt =====
-- backend/ingestion/envelope.py: the key of a recording, by its bytes and its source; and the paths
-- of the audio store. The hash function is a parameter.
use Prim.Native.String.{◌++◌}
use callsense.Prelude.{ℕ, String, List}

abbrev pub Bytes : Type 0
Bytes = List ℕ

-- f"{digest}:{source}"
unfoldable pub derive_idempotency_key : (Bytes → String) → Bytes → String → String
derive_idempotency_key sha256_hex audio_bytes source = sha256_hex audio_bytes ++ ":" ++ source

-- store_dir / f"{uuid.uuid4().hex}{suffix}"
abbrev pub store_path : String → String → String → String
store_path store_dir hex suffix = store_dir ++ "/" ++ hex ++ suffix
