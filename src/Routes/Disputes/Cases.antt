-- ===== src/Routes/Disputes/Cases.antt =====
-- Each request either changes no table, or is the operation's effect, with what it needs.
use callsense.Prelude.{ℕ, String, Option, some, ◌≡◌, refl, ◌∙◌, ◌⊎◌, inl, inr, arith}
use callsense.Models.Taxonomy.{FlagState, open_, disputed}
use callsense.Models.Tables.{Flag, Dispute, Db}
use callsense.Session.{Error, Result, ok, err, rollback, settle, Result-cases}
use callsense.Feedback.{find_flag, parse_resolution, join_flag, raise_dispute, resolve_dispute}
use callsense.Feedback.Outcomes.{raise_dispute-ok, resolve_dispute-ok}
use callsense.Feedback.Effects.{
  raised, raise_dispute-eq-raised, resolved, resolve_dispute-eq-resolved,
}
use callsense.Routes.Disputes.{conflict, dispute_flag, resolve}

module _ {A : Type 0} (before after : Db) (r : Result A) where
  conflict-err :
      (e : Error) → r ≡ err e → (conflict (settle before (r, after))).1 ≡ rollback before after
  conflict-err e h = ground arith

  conflict-ok : (a : A) → r ≡ ok a → (conflict (settle before (r, after))).1 ≡ after
  conflict-ok a h = ground arith

module _ (flag_id : ℕ) (note : Option String) (raised_by : Option ℕ) (db : Db) where
  pub dispute_flag_cases :
      ((after : Db) × ((dispute_flag flag_id note raised_by db).1 ≡ rollback db after))
      ⊎ ((f : Flag) × (find_flag flag_id db ≡ some f)
          × (f.state ≡ open_)
          × ((dispute_flag flag_id note raised_by db).1 ≡ raised flag_id note raised_by db))
  unfolding dispute_flag
  dispute_flag_cases =
      let (r, after) = raise_dispute flag_id note raised_by db in
      elim (Result-cases r) [
        | inl (e, h) ↦ inl (after, conflict-err db after r e h)
        | inr (id, h) ↦
            let (f, found, opened) = raise_dispute-ok flag_id note raised_by db id h in
            inr (
              f,
              found,
              opened,
              rw (raise_dispute-eq-raised flag_id note raised_by db found opened) refl,
            )
      ]

module _ (id : ℕ) (resolution : String) (by note : Option String) (now : ℕ) (db : Db) where
  pub resolve_cases :
      ((after : Db) × ((resolve id resolution by note now db).1 ≡ rollback db after))
      ⊎ ((s : FlagState) × (d : Dispute) × (f : Flag) × (parse_resolution resolution ≡ some s)
          × (join_flag id db ≡ some (d, f))
          × (f.state ≡ disputed)
          × ((resolve id resolution by note now db).1 ≡ resolved id s by note now f db))
  unfolding resolve
  resolve_cases =
      let (r, after) = resolve_dispute id resolution by note now db in
      elim (Result-cases r) [
        | inl (e, h) ↦ inl (after, conflict-err db after r e h)
        | inr (a, h) ↦
            let (s, d, f, q, p, j, w, n) = resolve_dispute-ok id resolution by note now db a h in
            inr (
              s,
              d,
              f,
              p,
              j,
              w,
              conflict-ok db after r a h
                  ∙ resolve_dispute-eq-resolved id s by note now f db resolution d p j w n,
            )
      ]
