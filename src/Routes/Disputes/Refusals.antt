-- ===== src/Routes/Disputes/Refusals.antt =====
-- Requests that are refused.
use callsense.Prelude.{
  ℕ, String, Option, none, some, ◌≡◌, refl, ap, ◌∙◌, arith, find_where, find_where-update,
  find_where-holds,
}
use callsense.Models.Taxonomy.{FlagState, disputed}
use callsense.Models.Tables.{Flag, Dispute, Db}
use callsense.Session.{ok, err, http, integrity_error, rollback}
use callsense.Feedback.{
  has_id, find_flag, set_state, set_flag_state, raise_dispute, resolve_dispute, parse_resolution,
  join_flag, insert_example,
}
use callsense.Feedback.Outcomes.{raise_dispute-ok}
use callsense.Feedback.Effects.{raised, raise_dispute-eq-raised, flags-raised}
use callsense.Routes.Disputes.{dispute_flag, resolve}

-- A flag that does not stand open is not disputed again: the answer is 409.
not_open :
    (flag_id : ℕ) (note : Option String) (by : Option ℕ) (db : Db) (f : Flag)
    → find_flag flag_id db ≡ some f
    → f.state ≡ disputed
    → (dispute_flag flag_id note by db).0 ≡ err (http 409)
unfolding dispute_flag raise_dispute
not_open flag_id words by db f found state = ground arith

find_flag-raised :
    (flag_id : ℕ) (note : Option String) (by : Option ℕ) (db : Db) (f : Flag)
    → find_flag flag_id db ≡ some f
    → find_flag flag_id (raised flag_id note by db) ≡ some (set_state disputed f)
unfolding set_flag_state
find_flag-raised flag_id note by db f found =
    let holds = find_where-holds (has_id flag_id) db.flags f found in
    ap (find_where (has_id flag_id)) (flags-raised flag_id note by db)
    ∙ find_where-update (has_id flag_id) (has_id flag_id) (set_state disputed) db.flags (λ x. refl)
    ∙ rw (found, holds) refl

dispute_flag-ok :
    (flag_id : ℕ) (note : Option String) (by : Option ℕ) (db : Db) (d : ℕ)
    → (dispute_flag flag_id note by db).0 ≡ ok d
    → (raise_dispute flag_id note by db).0 ≡ ok d
unfolding dispute_flag
dispute_flag-ok flag_id words by db d h = ground arith

-- After a dispute was raised against a flag, a second one against it is answered with 409.
pub dispute_twice :
    (flag_id : ℕ) (note note' : Option String) (by by' : Option ℕ) (db : Db) (d : ℕ)
    → (dispute_flag flag_id note by db).0 ≡ ok d
    → (dispute_flag flag_id note' by' (dispute_flag flag_id note by db).1).0 ≡ err (http 409)
dispute_twice flag_id note note' by by' db d h =
    let (f, found, opened) =
      raise_dispute-ok flag_id note by db d (dispute_flag-ok flag_id note by db d h) in
    let done : (dispute_flag flag_id note by db).1 ≡ raised flag_id note by db =
      unfold dispute_flag in rw (raise_dispute-eq-raised flag_id note by db found opened) refl in
    rw done (
      not_open flag_id note' by' (raised flag_id note by db) (set_state disputed f)
        (find_flag-raised flag_id note by db f found) refl)

-- A disputed flag that has no quote cannot be resolved: whatever the resolution, the request ends
-- in a violated NOT NULL constraint, and every table is as before.
pub resolve-no_quote :
    (id : ℕ) (resolution : String) (by note : Option String) (now : ℕ) (db : Db) (s : FlagState)
    (d : Dispute) (f : Flag)
    → parse_resolution resolution ≡ some s
    → join_flag id db ≡ some (d, f)
    → f.state ≡ disputed
    → f.quote ≡ none
    → ((resolve id resolution by note now db).0 ≡ err integrity_error)
      × ((after : Db) × ((resolve id resolution by note now db).1 ≡ rollback db after))
unfolding resolve resolve_dispute insert_example
resolve-no_quote id resolution by note now db s d f p j w q =
    (ground arith, ((resolve_dispute id resolution by note now db).1, ground arith))
