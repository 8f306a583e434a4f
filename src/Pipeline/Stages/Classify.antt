-- ===== src/Pipeline/Stages/Classify.antt =====
-- backend/pipeline/stages/classify.py: sales or not, and who the advisor is.
use callsense.Prelude.{
  ℕ, suc, Bool, true, false, not, ◌&&◌, String, Option, none, some, List, [], ◌∷◌, ◌++◌, ◌==◌,
  str_eq, if◌then◌else◌, exists_where, update_where, take, codes,
}
use callsense.Double.{one}
use callsense.Models.Taxonomy.{
  CallStatus, SpeakerRole, advisor, customer, unknown, non_sales_call, info, open_,
  is_non_sales_call,
}
use callsense.Models.Tables.{Text, Json, Metadata, Flag, Db}
use callsense.Session.{Result, Session, pure, lift, select, execute, ◌>>=◌, ◌>>◌}
use callsense.Transcription.Base.{TxSegment}
use callsense.Pipeline.Stages.Base.{
  CallInfo, load_call, load_tx_segments, belongs_to, merge_raw_metadata, set_call_status,
  get_metadata, transcript_text,
}

abbrev opening_turns : ℕ
opening_turns = 12

-- {"sales": …, "advisor_is": …}: whether the content says that the customer label is the rep's.
pub record Verdict : Type 0 where
  pub sales : Bool
  pub advisor_is_customer : Bool

abbrev pub swap_role : SpeakerRole → SpeakerRole
swap_role advisor = customer
swap_role customer = advisor
swap_role unknown = unknown

unfoldable pub swap_roles : ℕ → Db → Db
swap_roles call_id db = record db {
  segments =
      update_where (belongs_to call_id db) (λ s. record s { speaker = swap_role s.speaker })
        db.segments;
}

-- Python's truth of a JSON value under a key.
abbrev is_set : Option Json → Bool
is_set none = false
is_set (some Json.null) = false
is_set (some (Json.bool b)) = b
is_set (some (Json.number x)) = not (x == 0)
is_set (some (Json.thousandths n)) = not (n == 0)
is_set (some (Json.text s)) = not (str_eq s "")
is_set (some (Json.texts [])) = false
is_set (some (Json.texts (_ ∷ _))) = true

abbrev pub roles_swapped : Metadata → Bool
roles_swapped m = is_set (get_metadata "roles_swapped" m)

abbrev first_quote : List TxSegment → Option Text
first_quote [] = none
first_quote (s ∷ _) = some s.text

-- INSERT INTO flags
unfoldable pub insert_flag : (ℕ → Flag) → Db → Db
insert_flag flag db = record db {
  flags = db.flags ++ flag db.next.flags ∷ [];
  next = record db.next { flags = suc db.next.flags };
}

abbrev pub non_sales_flag : ℕ → Option Text → ℕ → Flag
non_sales_flag call_id quote id = record {
  id = id;
  call_id = call_id;
  tag = non_sales_call;
  severity = info;
  start_s = none;
  end_s = none;
  quote = quote;
  reason = codes "Classified as a non-sales call; excluded from scoring.";
  confidence = one;
  state = open_;
}

abbrev pub is_tagged : ℕ → Flag → Bool
is_tagged call_id f = f.call_id == call_id && is_non_sales_call f.tag

-- `get_llm(call.fixture).classify(opening)`
module _ (classify : Option String → Text → Result Verdict) where
  unfoldable pub fix_roles : ℕ → CallInfo → Verdict → Session (Unit {0})
  fix_roles call_id call verdict =
      if verdict.advisor_is_customer && not (roles_swapped call.raw_metadata)
      then (do
        execute (swap_roles call_id)
        execute (merge_raw_metadata call_id (("roles_swapped", Json.bool true) ∷ [])))
      else pure tt

  unfoldable pub finalise : ℕ → List TxSegment → Session (Unit {0})
  finalise call_id segments = do
    execute (insert_flag (non_sales_flag call_id (first_quote segments)))
    execute (set_call_status call_id CallStatus.done)

  unfoldable pub classify_call : ℕ → Session (Unit {0})
  classify_call call_id = do
    call ← load_call call_id
    segments ← load_tx_segments call_id true
    verdict ← lift (classify call.fixture (transcript_text (take opening_turns segments)))
    fix_roles call_id call verdict
    if verdict.sales then pure tt else finalise call_id segments

  unfoldable pub run : ℕ → Session (Unit {0})
  run call_id = do
    already ← select (λ db. exists_where (is_tagged call_id) db.flags)
    if already then pure tt else classify_call call_id
