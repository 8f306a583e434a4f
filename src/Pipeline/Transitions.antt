-- ===== src/Pipeline/Transitions.antt =====
-- backend/pipeline/stages/__init__.py: the order of the stages, and the one branch.
use callsense.Prelude.{
  ℕ, Bool, true, false, ◌&&◌, Option, none, some, List, [], ◌∷◌, ◌==◌, if◌then◌else◌, find_where,
}
use callsense.Models.Taxonomy.{
  JobStage, transcribe, diarise, redact, classify, analyse, validate, stage_eq, is_call_done,
}
use callsense.Models.Tables.{Call, Db}

abbrev pub stage_order : List JobStage
stage_order = transcribe ∷ diarise ∷ redact ∷ classify ∷ analyse ∷ validate ∷ []

-- STAGE_ORDER[STAGE_ORDER.index(current) + 1], or None past the end.
unfoldable pub next_in : JobStage → List JobStage → Option JobStage
next_in current [] = none
next_in current (s ∷ []) = none
next_in current (s ∷ t ∷ rest) =
    let later = next_in current (t ∷ rest) in if stage_eq s current then some t else later

abbrev is_done_call : Option Call → Bool
is_done_call none = false
is_done_call (some c) = is_call_done c.status

abbrev is_classify : JobStage → Bool
is_classify classify = true
is_classify _ = false

unfoldable pub next_stage : JobStage → ℕ → Db → Option JobStage
unfolding next_in
next_stage current call_id db =
    if is_classify current && is_done_call (find_where (λ c. c.id == call_id) db.calls)
    then none
    else next_in current stage_order
