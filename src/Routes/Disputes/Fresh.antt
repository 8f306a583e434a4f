-- ===== src/Routes/Disputes/Fresh.antt =====
-- The stored composites under any sequence of requests.
use mathlib.Core.Path.{subst}
use callsense.Prelude.{
  ℕ, false, String, Option, some, List, [], ◌∷◌, ◌≡◌, refl, sym, ap, ◌∙◌, inl, inr, arith, ◌==◌,
  select_where, exists_where, All-map, All-update_where_split, exists_where-All₂, Distinct,
  update-only_found, Bool-cases, ==_iff,
}
use callsense.Models.Taxonomy.{FlagState, disputed}
use callsense.Models.Tables.{Flag, Db}
use callsense.Session.{rollback}
use callsense.Analysis.Recompute.{live_composite, is_score_of, caps, dim_scores_from}
use callsense.Analysis.Recompute.Fresh.{
  IsFresh, IsFreshIn, compute_composite_empty, live_composite-eq,
}
use callsense.Feedback.{find_flag, set_state, set_flag_state}
use callsense.Feedback.Effects.{
  raised, flags-raised, scores-raised, call_scores-raised, list_cases, resolved, flags-resolved,
  scores-resolved, call_scores-resolved_none, call_scores-resolved_some,
}
use callsense.Routes.Disputes.Cases.{dispute_flag_cases, resolve_cases}
use callsense.Routes.Disputes.Moves.{join_flag-found, handle-Distinct}
use callsense.Routes.Disputes.{Request, dispute, decide, handle, serve}

-- Without scores the flags do not matter.
live_composite_empty :
    (db : Db) (c : ℕ)
    → select_where (is_score_of c) db.scores ≡ []
    → live_composite db c ≡ (0, false)
unfolding live_composite dim_scores_from
live_composite_empty db c e = rw e (compute_composite_empty _)

IsFresh-eq :
    (db db' : Db)
    → db'.call_scores ≡ db.call_scores
    → ((c : ℕ) → live_composite db' c ≡ live_composite db c)
    → IsFresh db
    → IsFresh db'
IsFresh-eq db db' same live h =
    simp same
      (All-map (IsFreshIn db) (IsFreshIn db') db.call_scores (λ r e. e ∙ sym (live r.call_id)) h)

module _ (db : Db) (distinct : Distinct (λ (f : Flag). f.id) db.flags) where
  -- Writing the state of a flag leaves a call as it is, if the flag's cap on it is the same.
  caps-set_flag_state :
      (c id : ℕ) (s : FlagState) (f : Flag)
      → find_flag id db ≡ some f
      → caps c (set_state s f) ≡ caps c f
      → exists_where (caps c) (set_flag_state id s db).flags ≡ exists_where (caps c) db.flags
  unfolding set_flag_state
  caps-set_flag_state c id s f found same =
      exists_where-All₂ _ (caps c) db.flags _
        (λ a b. elim [
          | inl e ↦ ap (caps c) e
          | inr (e, e') ↦ ap (caps c) e' ∙ same ∙ sym (ap (caps c) e)
        ])
        (update-only_found (λ (x : Flag). x.id) id (set_state s) db.flags f distinct found)

  dispute-IsFresh :
      (flag_id : ℕ) (note : Option String) (by : Option ℕ)
      → IsFresh db
      → IsFresh (handle (dispute flag_id note by) db)
  unfolding handle
  dispute-IsFresh flag_id note by h = elim (dispute_flag_cases flag_id note by db) [
    | inl (after, e) ↦ rw e (
        unfold rollback in
        IsFresh-eq db (rollback db after) refl
          (λ c. live_composite-eq db (rollback db after) c refl refl) h)
    | inr (f, found, opened, e) ↦
        let db' = raised flag_id note by db in
        rw e (
          IsFresh-eq db db' (call_scores-raised flag_id note by db)
            (λ c. live_composite-eq db db' c (scores-raised flag_id note by db) (
              ap (exists_where (caps c)) (flags-raised flag_id note by db)
              ∙ caps-set_flag_state c flag_id disputed f found (ground arith)))
            h)
  ]

  module _ (id : ℕ) (s : FlagState) (by note : Option String) (now : ℕ) (f : Flag)
      (found : find_flag f.id db ≡ some f) where
    abbrev after : Db
    after = resolved id s by note now f db

    -- A call without the flag keeps its composite.
    other_call : (c : ℕ) → (c == f.call_id) ≡ false → live_composite after c ≡ live_composite db c
    other_call c ne = live_composite-eq db after c (scores-resolved id s by note now f db) (
        ap (exists_where (caps c)) (flags-resolved id s by note now f db)
        ∙ caps-set_flag_state c f.id s f found (ground arith))

    -- Without scores no flag matters to the call of the flag.
    without_scores :
        select_where (is_score_of f.call_id) db.scores ≡ []
        → (c : ℕ) → live_composite after c ≡ live_composite db c
    without_scores e c = elim (Bool-cases (c == f.call_id)) [
      | inl same ↦
          let e' =
            ap (select_where (is_score_of f.call_id)) (scores-resolved id s by note now f db) ∙ e in
          subst (λ k. live_composite after k ≡ live_composite db k)
            (sym ((==_iff c f.call_id).0 same))
            (live_composite_empty after f.call_id e' ∙ sym (live_composite_empty db f.call_id e))
      | inr other ↦ other_call c other
    ]

    resolved-IsFresh : IsFresh db → IsFresh after
    resolved-IsFresh h = elim (list_cases (select_where (is_score_of f.call_id) db.scores)) [
      | inl e ↦
          IsFresh-eq db after (call_scores-resolved_none id s by note now f db e) (without_scores e)
            h
      | inr (r, rows, e) ↦ simp (call_scores-resolved_some id s by note now f db e) (
          All-update_where_split (IsFreshIn db) (IsFreshIn after) _ _ db.call_scores
            (λ x same _. ap (live_composite after) (sym ((==_iff x.call_id f.call_id).0 same)))
            (λ x other fresh. fresh ∙ sym (other_call x.call_id other)) h)
    ]

  resolve-IsFresh :
      (id : ℕ) (resolution : String) (by note : Option String) (now : ℕ)
      → IsFresh db
      → IsFresh (handle (decide id resolution by note now) db)
  unfolding handle
  resolve-IsFresh id resolution by note now h = elim (resolve_cases id resolution by note now db) [
    | inl (after, e) ↦ rw e (
        unfold rollback in
        IsFresh-eq db (rollback db after) refl
          (λ c. live_composite-eq db (rollback db after) c refl refl) h)
    | inr (s, d, f, p, j, w, e) ↦
        rw e (resolved-IsFresh id s by note now f (join_flag-found id d f db j) h)
  ]

  handle-IsFresh : (r : Request) → IsFresh db → IsFresh (handle r db)
  handle-IsFresh (dispute flag_id note by) h = dispute-IsFresh flag_id note by h
  handle-IsFresh (decide id resolution by note now) h = resolve-IsFresh id resolution by note now h

-- Where flag ids are distinct and every stored composite is the one that the scores of its call
-- and the flags not dismissed give, that is still so after any sequence of dispute and resolve
-- requests: the score that a dashboard reads is never stale.
pub serve-IsFresh :
    (requests : List Request) (db : Db)
    → Distinct (λ (f : Flag). f.id) db.flags
    → IsFresh db
    → IsFresh (serve requests db)
unfolding serve
serve-IsFresh [] db d h = h
serve-IsFresh (r ∷ requests) db d h =
    serve-IsFresh requests (handle r db) (handle-Distinct db d r) (handle-IsFresh db d r h)
