-- ===== src/Feedback/Effects.antt =====
-- What a successful operation leaves in the tables.
use mathlib.Core.Path.{ap₂}
use callsense.Prelude.{
  ℕ, Bool, String, Option, none, some, List, [], ◌∷◌, ◌≡◌, refl, sym, ap, ◌∙◌, ◌⊎◌, inl, inr, arith,
  ◌==◌, select_where, update_where,
}
use callsense.Models.Taxonomy.{FlagState, open_, disputed}
use callsense.Models.Tables.{Text, Flag, Dispute, Score, CallScore, Db}
use callsense.Session.{Result, ok}
use callsense.Analysis.Recompute.{
  recompute_call_score, write_composite, live_composite, is_score_of, set_composite,
}
use callsense.Feedback.{
  find_flag, set_flag_state, insert_dispute, audit, parse_resolution, join_flag, raise_dispute,
  resolve_dispute, resolve_row, insert_example, raiser, actor_or_leader, verdict_of,
}

pub list_cases : {A : Type 0} (xs : List A) → (xs ≡ []) ⊎ ((y : A) × (ys : List A) × (xs ≡ y ∷ ys))
list_cases [] = inl refl
list_cases (y ∷ ys) = inr (y, ys, refl)

live_composite_congr :
    (db db' : Db) (c : ℕ)
    → db'.scores ≡ db.scores
    → db'.flags ≡ db.flags
    → live_composite db c ≡ live_composite db' c
unfolding live_composite
live_composite_congr db db' c s f = cc

module _ (call_id : ℕ) (db : Db) where
  -- Only the composite of the call is written, and only if the call has scores.
  pub recompute-eq-nothing :
      select_where (is_score_of call_id) db.scores ≡ []
      → recompute_call_score call_id db ≡ (ok none, db)
  unfolding recompute_call_score
  recompute-eq-nothing h = rw h

  pub recompute-eq-written :
      {r : Score} {rows : List Score}
      → select_where (is_score_of call_id) db.scores ≡ r ∷ rows
      → recompute_call_score call_id db ≡ (
        ok (some (live_composite db call_id)),
        write_composite call_id (live_composite db call_id) db,
      )
  unfolding recompute_call_score live_composite
  recompute-eq-written h = rw h

  recompute_returns : (r : Option (ℕ × Bool)) × ((recompute_call_score call_id db).0 ≡ ok r)
  unfolding recompute_call_score
  recompute_returns = elim (list_cases (select_where (is_score_of call_id) db.scores)) [
    | inl e ↦ (none, ground arith)
    | inr (r, rows, e) ↦ (
      some (live_composite db call_id),
      ap (λ (x : Result (Option (ℕ × Bool)) × Db). x.0) (recompute-eq-written e),
    )
  ]

module _ (flag_id : ℕ) (note : Option String) (raised_by : Option ℕ) (db : Db) where
  -- What is left of raising a dispute against an open flag.
  abbrev pub raised : Db
  raised =
      audit (raiser raised_by) "raise_dispute" flag_id open_ disputed note
        (set_flag_state flag_id disputed (insert_dispute flag_id note raised_by db))

  pub raise_dispute-eq-raised :
      {f : Flag}
      → find_flag flag_id db ≡ some f
      → f.state ≡ open_
      → raise_dispute flag_id note raised_by db ≡ (ok db.next.disputes, raised)
  unfolding raise_dispute
  raise_dispute-eq-raised found opened = ground arith

  pub flags-raised : raised.flags ≡ (set_flag_state flag_id disputed db).flags
  unfolding audit set_flag_state insert_dispute
  flags-raised = refl

  pub scores-raised : raised.scores ≡ db.scores
  unfolding audit set_flag_state insert_dispute
  scores-raised = refl

  pub call_scores-raised : raised.call_scores ≡ db.call_scores
  unfolding audit set_flag_state insert_dispute
  call_scores-raised = refl

module _ (id : ℕ) (s : FlagState) (by note : Option String) (now : ℕ) (f : Flag) (db : Db) where
  -- The database in which the composite is computed again.
  abbrev pub decided : Db
  decided =
      (insert_example f.tag f.quote (verdict_of s) id
        (set_flag_state f.id s (resolve_row id s by note now db))).1

  abbrev pub resolved : Db
  resolved =
      audit (actor_or_leader by) "resolve_dispute" f.id disputed s note
        (recompute_call_score f.call_id decided).1

  scores-decided : decided.scores ≡ db.scores
  unfolding set_flag_state resolve_row insert_example
  scores-decided = ground arith

  call_scores-decided : decided.call_scores ≡ db.call_scores
  unfolding set_flag_state resolve_row insert_example
  call_scores-decided = ground arith

  pub flags-decided : decided.flags ≡ (set_flag_state f.id s db).flags
  unfolding set_flag_state resolve_row insert_example
  flags-decided = ground arith

  pub resolve_dispute-eq-resolved :
      (resolution : String) (d : Dispute) {q : Text}
      → parse_resolution resolution ≡ some s
      → join_flag id db ≡ some (d, f)
      → f.state ≡ disputed
      → f.quote ≡ some q
      → (resolve_dispute id resolution by note now db).1 ≡ resolved
  unfolding resolve_dispute insert_example
  resolve_dispute-eq-resolved resolution d p j waiting q =
      let (_, fine) = recompute_returns f.call_id decided in ground arith

  pub flags-resolved : resolved.flags ≡ (set_flag_state f.id s db).flags
  unfolding set_flag_state resolve_row insert_example audit recompute_call_score write_composite
  flags-resolved = ground arith

  pub scores-resolved : resolved.scores ≡ db.scores
  unfolding set_flag_state resolve_row insert_example audit recompute_call_score write_composite
  scores-resolved = ground arith

  selected :
      {rows : List Score}
      → select_where (is_score_of f.call_id) db.scores ≡ rows
      → select_where (is_score_of f.call_id) decided.scores ≡ rows
  selected e = ap (select_where (is_score_of f.call_id)) scores-decided ∙ e

  pub call_scores-resolved_none :
      select_where (is_score_of f.call_id) db.scores ≡ [] → resolved.call_scores ≡ db.call_scores
  unfolding audit
  call_scores-resolved_none e =
      ap (λ (x : Result (Option (ℕ × Bool)) × Db). x.1.call_scores)
        (recompute-eq-nothing f.call_id decided (selected e))
      ∙ call_scores-decided

  pub call_scores-resolved_some :
      {r : Score} {rows : List Score}
      → select_where (is_score_of f.call_id) db.scores ≡ r ∷ rows
      → resolved.call_scores
        ≡ update_where
            (λ (c : CallScore). c.call_id == f.call_id)
            (set_composite (live_composite resolved f.call_id))
            db.call_scores
  unfolding audit write_composite
  call_scores-resolved_some e =
      ap (λ (x : Result (Option (ℕ × Bool)) × Db). x.1.call_scores)
        (recompute-eq-written f.call_id decided (selected e))
      ∙ ap₂
          (λ (v : ℕ × Bool) (rows : List CallScore).
            update_where (λ (c : CallScore). c.call_id == f.call_id) (set_composite v) rows)
          (live_composite_congr decided resolved f.call_id (scores-resolved ∙ sym scores-decided)
            (flags-resolved ∙ sym flags-decided))
          call_scores-decided
