-- ===== src/Feedback/Outcomes.antt =====
-- When the two operations of a dispute succeed, and with which database.
use callsense.Prelude.{ℕ, String, Option, some, ◌≡◌, inl, inr, arith, Option-cases}
use callsense.Models.Taxonomy.{FlagState, open_, disputed}
use callsense.Models.Tables.{Text, Flag, Dispute, Db}
use callsense.Session.{ok}
use callsense.Feedback.{
  ResolveResult, find_flag, parse_resolution, join_flag, raise_dispute, resolve_dispute,
  insert_example,
}

module _ (flag_id : ℕ) (note : Option String) (raised_by : Option ℕ) (db : Db) where
  pub raise_dispute-ok :
      (dispute_id : ℕ)
      → (raise_dispute flag_id note raised_by db).0 ≡ ok dispute_id
      → (f : Flag) × (find_flag flag_id db ≡ some f) × (f.state ≡ open_)
  unfolding raise_dispute
  raise_dispute-ok id h = elim (Option-cases (find_flag flag_id db)) [
    | inl e ↦ absurd (ground arith)
    | inr (f, e) ↦ (f, e, ground arith)
  ]

module _ (id : ℕ) (resolution : String) (by note : Option String) (now : ℕ) (db : Db) where
  pub resolve_dispute-ok :
      (r : ResolveResult)
      → (resolve_dispute id resolution by note now db).0 ≡ ok r
      → (s : FlagState) × (d : Dispute) × (f : Flag) × (q : Text) × (parse_resolution resolution
          ≡ some s)
        × (join_flag id db ≡ some (d, f))
        × (f.state ≡ disputed)
        × (f.quote ≡ some q)
  unfolding resolve_dispute insert_example
  resolve_dispute-ok r h = elim (Option-cases (parse_resolution resolution)) [
    | inl e ↦ absurd (ground arith)
    | inr (s, e) ↦ elim (Option-cases (join_flag id db)) [
      | inl j ↦ absurd (ground arith)
      | inr ((d, f), j) ↦ elim (Option-cases f.quote) [
        | inl n ↦ absurd (ground arith)
        | inr (q, n) ↦ (s, d, f, q, e, j, ground arith, n)
      ]
    ]
  ]
