-- ===== src/Session.antt =====
-- backend/db/session.py and the use of it: a statement sequence of one session, which may raise.
-- The database is returned beside an error too, as it stands in the open transaction; what
-- `rollback` keeps of it are the id sequences, which PostgreSQL does not roll back.
use callsense.Prelude.{ℕ, Bool, String, Option, none, some, ◌≡◌, refl, ◌⊎◌, inl, inr, if◌then◌else◌}
use callsense.Models.Tables.{Db}

-- The exceptions that the code raises or meets. `external` is raised by a library.
pub data Error : Type 0 where
  value_error validation_error integrity_error dispute_error audio_validation_error : Error
  external : String → Error
  http : ℕ → Error

pub data Result {ℓ} (A : Type ℓ) : Type ℓ where
  ok : A → Result A
  err : Error → Result A

abbrev pub Session : Type 0 → Type 0
Session A = Db → Result A × Db

pub Result-cases {ℓ} :
    {A : Type ℓ} (r : Result A) → ((e : Error) × (r ≡ err e)) ⊎ ((a : A) × (r ≡ ok a))
Result-cases (ok a) = inr (a, refl)
Result-cases (err e) = inl (e, refl)

module _ {A : Type 0} where
  abbrev pub pure : A → Session A
  pure a db = (ok a, db)

  abbrev pub raise : Error → Session A
  raise e db = (err e, db)

  -- A query.
  abbrev pub select : (Db → A) → Session A
  select f db = (ok (f db), db)

  abbrev pub lift : Result A → Session A
  lift r db = (r, db)

  abbrev pub or_raise : Option A → Error → Session A
  or_raise none e = raise e
  or_raise (some a) e = pure a

-- A statement that returns nothing.
abbrev pub execute : (Db → Db) → Session (Unit {0})
execute f db = (ok tt, f db)

abbrev pub raise_if : Bool → Error → Session (Unit {0})
raise_if b e db = (if b then err e else ok tt, db)

module _ {A B : Type 0} where
  abbrev pub and_then : Result A → (A → Session B) → Session B
  and_then (ok a) f = f a
  and_then (err e) f = raise e

  infixl 5 ◌>>=◌ ◌>>◌
  abbrev pub ◌>>=◌ : Session A → (A → Session B) → Session B
  ◌>>=◌ m f db = let (r, db') = m db in and_then r f db'

  abbrev pub ◌>>◌ : Session A → Session B → Session B
  m >> k = m >>= λ _. k

-- What is left of a transaction that ended at `after` when it is rolled back to `before`.
unfoldable pub rollback : Db → Db → Db
rollback before after = record before { next = after.next }

abbrev pub settle : {A : Type 0} → Db → Result A × Db → Result A × Db
settle before (ok a, after) = (ok a, after)
settle before (err e, after) = (err e, rollback before after)

-- A request's session: commit what succeeds; an exception rolls back, here or when the session
-- is closed.
unfoldable pub transaction : {A : Type 0} → Session A → Db → Result A × Db
transaction m db = settle db (m db)
