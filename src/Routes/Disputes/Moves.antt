-- ===== src/Routes/Disputes/Moves.antt =====
-- The life of a flag under any sequence of requests.
use mathlib.Core.Path.{subst}
use callsense.Prelude.{
  ℕ, String, Option, some, List, [], ◌∷◌, ◌≡◌, refl, sym, ap, ◌∙◌, ◌⊎◌, inl, inr, arith, All₂,
  All₂-refl, All₂-map, Distinct, Distinct-All₂, update-only_found, Option-cases, ==_iff,
  find_where-holds,
}
use callsense.Models.Taxonomy.{FlagState, open_, disputed, upheld, dismissed}
use callsense.Models.Tables.{Flag, Dispute, Db}
use callsense.Session.{rollback}
use callsense.Feedback.{
  has_id, find_flag, find_dispute, set_state, set_flag_state, parse_resolution, join_flag,
}
use callsense.Feedback.Effects.{flags-raised, flags-resolved}
use callsense.Routes.Disputes.Cases.{dispute_flag_cases, resolve_cases}
use callsense.Routes.Disputes.{Request, dispute, decide, handle, serve}

-- The state machine of a flag.
pub data Step : FlagState → FlagState → Type 0 where
  contest : Step open_ disputed
  uphold : Step disputed upheld
  dismiss : Step disputed dismissed

pub data Steps (a : FlagState) : FlagState → Type 0 where
  here : Steps a a
  next : {b c : FlagState} → Steps a b → Step b c → Steps a c

-- A row takes at most one step, and keeps all else.
abbrev Stepped : Flag → Flag → Type 0
Stepped f g = (g ≡ f) ⊎ ((s : FlagState) × Step f.state s × (g ≡ set_state s f))

-- A row takes steps, and keeps all else.
abbrev pub Evolved : Flag → Flag → Type 0
Evolved f g = (g ≡ set_state g.state f) × Steps f.state g.state

Evolved-Stepped : (f g h : Flag) → Evolved f g → Stepped g h → Evolved f h
Evolved-Stepped f g h (same, path) (inl e) = rw e (same, path)
Evolved-Stepped f g h (same, path) (inr (s, step, e)) = rw e (cc, Steps.next path step)

All₂-then : (fs gs hs : List Flag) → All₂ Evolved fs gs → All₂ Stepped gs hs → All₂ Evolved fs hs
All₂-then [] [] [] p q = tt
All₂-then (f ∷ fs) (g ∷ gs) (h ∷ hs) p q =
    (Evolved-Stepped f g h p.0 q.0, All₂-then fs gs hs p.1 q.1)
All₂-then [] [] (h ∷ hs) p q = q
All₂-then [] (g ∷ gs) hs p q = elim p [ ]
All₂-then (f ∷ fs) [] hs p q = elim p [ ]
All₂-then (f ∷ fs) (g ∷ gs) [] p q = q

-- The joined flag is the one with its id.
pub join_flag-found :
    (id : ℕ) (d : Dispute) (f : Flag) (db : Db)
    → join_flag id db ≡ some (d, f)
    → find_flag f.id db ≡ some f
unfolding join_flag
join_flag-found id d f db j = elim (Option-cases (find_dispute id db)) [
  | inl e ↦ absurd (ground arith)
  | inr (d', e) ↦ elim (Option-cases (find_flag d'.flag_id db)) [
    | inl n ↦ absurd (ground arith)
    | inr (f', n) ↦
        let same : f' ≡ f = ground arith in
        let found : find_flag d'.flag_id db ≡ some f = n ∙ ap some same in
        let key = (==_iff _ _).0 (find_where-holds (has_id d'.flag_id) db.flags f found) in
        subst (λ k. find_flag k db ≡ some f) (sym key) found
  ]
]

module _ (db : Db) (distinct : Distinct (λ (f : Flag). f.id) db.flags) where
  -- Writing the state of the flag that was found is one step.
  set_found-Stepped :
      (id : ℕ) (s : FlagState) (f : Flag)
      → find_flag id db ≡ some f
      → Step f.state s
      → All₂ Stepped db.flags (set_flag_state id s db).flags
  unfolding set_flag_state
  set_found-Stepped id s f found step =
      All₂-map _ Stepped
        (λ a b. elim [
          | inl e ↦ inl e
          | inr (e, b') ↦
              inr (
                s,
                subst (λ (x : Flag). Step x.state s) (sym e) step,
                b' ∙ ap (set_state s) (sym e),
              )
        ])
        db.flags (set_flag_state id s db).flags
        (update-only_found (λ (x : Flag). x.id) id (set_state s) db.flags f distinct found)

  dispute-Stepped :
      (flag_id : ℕ) (note : Option String) (by : Option ℕ)
      → All₂ Stepped db.flags (handle (dispute flag_id note by) db).flags
  unfolding handle
  dispute-Stepped flag_id note by = elim (dispute_flag_cases flag_id note by db) [
    | inl (after, e) ↦ rw e (unfold rollback in All₂-refl Stepped (λ f. inl refl) db.flags)
    | inr (f, found, opened, e) ↦
        rw (e, flags-raised) (set_found-Stepped flag_id disputed f found (rw opened Step.contest))
  ]

  parsed-Step :
      (resolution : String) (a s : FlagState)
      → parse_resolution resolution ≡ some s
      → a ≡ disputed
      → Step a s
  unfolding parse_resolution
  parsed-Step resolution a upheld p e = rw e Step.uphold
  parsed-Step resolution a dismissed p e = rw e Step.dismiss
  parsed-Step resolution a _ p e = absurd (ground arith)

  resolve-Stepped :
      (id : ℕ) (resolution : String) (by note : Option String) (now : ℕ)
      → All₂ Stepped db.flags (handle (decide id resolution by note now) db).flags
  unfolding handle
  resolve-Stepped id resolution by note now = elim (resolve_cases id resolution by note now db) [
    | inl (after, e) ↦ rw e (unfold rollback in All₂-refl Stepped (λ f. inl refl) db.flags)
    | inr (s, d, f, p, j, w, e) ↦
        rw (e, flags-resolved)
          (set_found-Stepped f.id s f (join_flag-found id d f db j)
            (parsed-Step resolution f.state s p w))
  ]

  handle-Stepped : (r : Request) → All₂ Stepped db.flags (handle r db).flags
  handle-Stepped (dispute flag_id note by) = dispute-Stepped flag_id note by
  handle-Stepped (decide id resolution by note now) = resolve-Stepped id resolution by note now

  pub handle-Distinct : (r : Request) → Distinct (λ (f : Flag). f.id) (handle r db).flags
  handle-Distinct r =
      Distinct-All₂ (λ (f : Flag). f.id) Stepped db.flags (handle r db).flags
        (λ f g. elim [ inl e ↦ cc | inr (s, _, e) ↦ cc ]) (handle-Stepped r) distinct

serve-Evolved_from :
    (start db : Db) (requests : List Request)
    → Distinct (λ (f : Flag). f.id) db.flags
    → All₂ Evolved start.flags db.flags
    → All₂ Evolved start.flags (serve requests db).flags
unfolding serve
serve-Evolved_from start db [] d h = h
serve-Evolved_from start db (r ∷ requests) d h =
    serve-Evolved_from start (handle r db) requests (handle-Distinct db d r)
      (All₂-then start.flags db.flags (handle r db).flags h (handle-Stepped db d r))

-- Where flag ids are distinct, any sequence of dispute and resolve requests, refused ones
-- included, keeps the list of flags row by row: each keeps all but its state, and its state has
-- moved along open → disputed → upheld or dismissed only.
pub serve-Evolved :
    (requests : List Request) (db : Db)
    → Distinct (λ (f : Flag). f.id) db.flags
    → All₂ Evolved db.flags (serve requests db).flags
serve-Evolved requests db d =
    serve-Evolved_from db db requests d (All₂-refl Evolved (λ f. (refl, Steps.here)) db.flags)
