-- ===== src/Tests/Analysis.antt =====
-- Scores, quotes and the analysis of one call.
use callsense.Prelude.{
  Any, true, false, ◌&&◌, some, List, [], ◌∷◌, ◌++◌, ◌≡◌, ◌≢◌, ◌↔◌, ◌⊎◌, refl, arith, ◌<◌, ◌≤◌, ◌*◌,
  ltb, if◌then◌else◌, All, length, codes, exists_where, select_where, find_where,
}
use callsense.Double.{one, from_int, decimal, mul, div, round_places}
use callsense.Models.Taxonomy.{
  CallStatus, needs_review, needs_discovery, product_knowledge, objection_handling,
  compliance_integrity, next_step_booking,
}
use callsense.Models.Tables.{Flag, Call}
use callsense.Analysis.Rubric.{DimScores, compute_composite, get_score, rubric_run}
use callsense.Analysis.Rubric.Composite.{
  InRange, exact_composite, compute_composite-eq-exact, capped_iff,
}
use callsense.Analysis.Rubric.Cap.{composite-le-cap}
use callsense.Analysis.Recompute.Fresh.{IsFresh}
use callsense.Analysis.Difflib.{ratio, matches, is_popular}
use callsense.Analysis.Verify.{
  best_segment, improve, verify_quote, default_threshold, split, normalise,
}
use callsense.Analysis.Verify.Gate.{
  IsClose, IsAt, default_threshold_pos, verify_quote_iff, verify_quote-located,
}
use callsense.Pipeline.Stages.Base.{find_call, tx_segments}
use callsense.Pipeline.Stages.Analyse.{run}
use callsense.Pipeline.Stages.Analyse.Fresh.{IsBacked, run-IsFresh}
use callsense.Pipeline.Stages.Analyse.Grounded.{IsGrounded, run-IsGrounded}
use callsense.Pipeline.Stages.Validate
use callsense.Pipeline.Stages.Validate.Outcome.{IsComplete, run_lem}
use callsense.Tests.Samples.{
  ascii, sample_segments, sample_sheet, sample_analyst, sample_call, transcribed_db,
}

-- The fixture of the tests of the rubric, and the one sheet that the doubles misjudge.
sheet_runs :
    (compute_composite sample_sheet false ≡ (6400, false))
    × (compute_composite sample_sheet true ≡ (4000, true))
unfolding rubric_run
sheet_runs = (refl, refl)

abbrev edge_sheet : DimScores
edge_sheet =
    (needs_discovery, 1)
    ∷ (product_knowledge, 1)
    ∷ (objection_handling, 4)
    ∷ (compliance_integrity, 2)
    ∷ (next_step_booking, 2)
    ∷ []

edge_run : compute_composite edge_sheet true ≡ (4000, true)
unfolding rubric_run
edge_run = refl

sample_InRange : InRange sample_sheet
unfolding get_score
sample_InRange needs_discovery = omega arith
sample_InRange product_knowledge = omega arith
sample_InRange objection_handling = omega arith
sample_InRange compliance_integrity = omega arith
sample_InRange next_step_booking = omega arith

sample_exact : exact_composite sample_sheet ≢ 40
unfolding get_score
sample_exact = omega arith

compute_composite-eq-exact_example :
    (compute_composite sample_sheet true).0
    ≡ (if true && ltb 40 (exact_composite sample_sheet) then 40 else exact_composite sample_sheet)
      * 100
compute_composite-eq-exact_example = compute_composite-eq-exact sample_sheet true sample_InRange

capped_iff_example :
    (compute_composite sample_sheet true).1 ≡ (true && ltb 40 (exact_composite sample_sheet))
capped_iff_example = capped_iff sample_sheet true sample_InRange sample_exact

composite-le-cap_example : (compute_composite sample_sheet true).0 ≤ 4000
composite-le-cap_example = composite-le-cap sample_sheet

verify_quote_iff_example :
    ((verify_quote ascii (codes "it is sure") sample_segments default_threshold).found ≡ true) ↔ (
      (0 < length (split ascii (normalise ascii (codes "it is sure"))))
      × Any (IsClose ascii (codes "it is sure") default_threshold) sample_segments)
verify_quote_iff_example =
    verify_quote_iff ascii (codes "it is sure") sample_segments default_threshold
      default_threshold_pos

quote_found : (verify_quote ascii (codes "sure") sample_segments default_threshold).found ≡ true
unfolding verify_quote default_threshold best_segment improve ratio matches is_popular mul div
    from_int decimal round_places one
quote_found = refl

verify_quote-located_example :
    Any
      (λ seg.
        IsClose ascii (codes "sure") default_threshold seg
        × IsAt (verify_quote ascii (codes "sure") sample_segments default_threshold) seg)
      sample_segments
verify_quote-located_example =
    verify_quote-located ascii (codes "sure") sample_segments default_threshold
      default_threshold_pos quote_found

run-IsGrounded_example :
    (new : List Flag) × ((run ascii sample_analyst 1 transcribed_db).1.flags
      ≡ transcribed_db.flags ++ new)
    × All (IsGrounded ascii (tx_segments 1 true transcribed_db) 1) new
run-IsGrounded_example = run-IsGrounded ascii sample_analyst 1 transcribed_db

transcribed_IsBacked : IsBacked transcribed_db
unfolding select_where exists_where
transcribed_IsBacked c h = (refl, refl)

run-IsFresh_example :
    IsFresh (run ascii sample_analyst 1 transcribed_db).1
    × IsBacked (run ascii sample_analyst 1 transcribed_db).1
run-IsFresh_example = run-IsFresh ascii sample_analyst 1 transcribed_db tt transcribed_IsBacked

sample_found : find_call 1 transcribed_db ≡ some sample_call
unfolding find_where
sample_found = refl

run_lem_example :
    (after : Call) × (find_call 1 (Validate.run 1 transcribed_db).1 ≡ some after)
    × ((IsComplete 1 transcribed_db × (after.status ≡ CallStatus.done))
        ⊎ (¬ (IsComplete 1 transcribed_db) × (after.status ≡ needs_review)))
run_lem_example = run_lem 1 transcribed_db sample_call sample_found
