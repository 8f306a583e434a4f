-- ===== src/Routes/Disputes.antt =====
-- backend/app/routes/flags.py and disputes.py: a dispute is raised, and resolved, by a request.
pub mod Cases
pub mod Moves
pub mod Fresh
pub mod Refusals
pub mod Audit
use callsense.Prelude.{ℕ, String, Option, List, [], ◌∷◌}
use callsense.Models.Tables.{Db}
use callsense.Session.{Error, dispute_error, http, Result, ok, err, transaction}
use callsense.Feedback.{ResolveResult, raise_dispute, resolve_dispute}

-- `except DisputeError as exc: … raise HTTPException(status_code=409)`
abbrev pub conflict : {A : Type 0} → Result A × Db → Result A × Db
conflict (err dispute_error, db) = (err (http 409), db)
conflict other = other

unfoldable pub dispute_flag : ℕ → Option String → Option ℕ → Db → Result ℕ × Db
unfolding transaction
dispute_flag flag_id note raised_by db =
    conflict (transaction (raise_dispute flag_id note raised_by) db)

unfoldable pub resolve :
    ℕ → String → Option String → Option String → ℕ → Db → Result ResolveResult × Db
unfolding transaction
resolve dispute_id resolution resolved_by resolution_note now db =
    conflict
      (transaction (resolve_dispute dispute_id resolution resolved_by resolution_note now) db)

pub data Request : Type 0 where
  dispute : ℕ → Option String → Option ℕ → Request
  decide : ℕ → String → Option String → Option String → ℕ → Request

unfoldable pub handle : Request → Db → Db
unfolding dispute_flag resolve
handle (dispute flag_id note raised_by) db = (dispute_flag flag_id note raised_by db).1
handle (decide dispute_id resolution resolved_by note now) db =
    (resolve dispute_id resolution resolved_by note now db).1

-- Requests one after the other, whatever their outcomes.
unfoldable pub serve : List Request → Db → Db
unfolding handle
serve [] db = db
serve (r ∷ requests) db = serve requests (handle r db)
