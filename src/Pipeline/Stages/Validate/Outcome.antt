-- ===== src/Pipeline/Stages/Validate/Outcome.antt =====
-- The status that the last stage gives a call.
use callsense.Prelude.{
  ℕ, Bool, true, false, ◌&&◌, some, ◌≡◌, ◌⊎◌, inl, inr, ◌∙◌, refl, arith, ◌==◌, if◌then◌else◌,
  exists_where, count_where, Bool-cases, find_where-update, find_where-holds,
}
use callsense.Models.Taxonomy.{CallStatus, needs_review}
use callsense.Models.Tables.{Call, Score, CallScore, Db}
use callsense.Pipeline.Stages.Base.{find_call, set_call_status}
use callsense.Pipeline.Stages.Validate.{run}

-- A composite, and five rows of scores.
abbrev pub IsComplete : ℕ → Db → Type 0
IsComplete call_id db =
    (exists_where (λ (r : CallScore). r.call_id == call_id) db.call_scores ≡ true)
    × (count_where (λ (r : Score). r.call_id == call_id) db.scores ≡ 5)

found_status :
    (id : ℕ) (s : CallStatus) (db : Db) (c : Call)
    → find_call id db ≡ some c
    → find_call id (set_call_status id s db) ≡ some (record c { status = s })
unfolding set_call_status
found_status id s db c found =
    let mine : Call → Bool = λ k. k.id == id in
    let held = find_where-holds mine db.calls c found in
    find_where-update mine mine (λ k. record k { status = s }) db.calls (λ k. refl)
    ∙ rw found (rw held refl)

status_cases :
    (has : Bool) (n : ℕ)
    → let s = if has && n == 5 then CallStatus.done else needs_review in
      (((has ≡ true) × (n ≡ 5)) × (s ≡ CallStatus.done))
      ⊎ (¬ ((has ≡ true) × (n ≡ 5)) × (s ≡ needs_review))
status_cases false n = inr (λ (h, _). absurd (cc), refl)
status_cases true n = elim (Bool-cases (n == 5)) [
  | inl e ↦ rw e (inl ((refl, ground arith), refl))
  | inr e ↦ rw e (inr (λ (_, h). absurd (ground arith), refl))
]

-- The validation of a call that exists leaves it complete and done, or incomplete and in need of a
-- review.
pub run_lem :
    (call_id : ℕ) (db : Db) (c : Call)
    → find_call call_id db ≡ some c
    → (after : Call) × (find_call call_id (run call_id db).1 ≡ some after)
      × ((IsComplete call_id db × (after.status ≡ CallStatus.done))
          ⊎ (¬ (IsComplete call_id db) × (after.status ≡ needs_review)))
unfolding run
run_lem call_id db c found =
    let has = exists_where (λ (r : CallScore). r.call_id == call_id) db.call_scores in
    let n = count_where (λ (r : Score). r.call_id == call_id) db.scores in
    let s = if has && n == 5 then CallStatus.done else needs_review in
    (record c { status = s }, found_status call_id s db c found, status_cases has n)
