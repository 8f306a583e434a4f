-- ===== src/Analysis/Recompute/Fresh.antt =====
-- Stored composites that agree with backend/analysis/recompute.py.
use callsense.Prelude.{Bool, true, false, ℕ, [], ◌≡◌, refl, exists_where, All}
use callsense.Models.Tables.{CallScore, Db}
use callsense.Analysis.Rubric.{compute_composite, rubric_run}
use callsense.Analysis.Recompute.{live_composite, caps}

-- What a row of `call_scores` holds is what its call's scores and live flags give.
abbrev pub IsFreshIn : Db → CallScore → Type 0
IsFreshIn db r = (r.composite, r.compliance_capped) ≡ live_composite db r.call_id

abbrev pub IsFresh : Db → Type 0
IsFresh db = All (IsFreshIn db) db.call_scores

pub compute_composite_empty : (b : Bool) → compute_composite [] b ≡ (0, false)
unfolding rubric_run
compute_composite_empty true = refl
compute_composite_empty false = refl

-- The composite depends on the scores of the call and on whether a flag caps it.
pub live_composite-eq :
    (db db' : Db) (c : ℕ)
    → db'.scores ≡ db.scores
    → exists_where (caps c) db'.flags ≡ exists_where (caps c) db.flags
    → live_composite db' c ≡ live_composite db c
unfolding live_composite
live_composite-eq db db' c s f = cc
