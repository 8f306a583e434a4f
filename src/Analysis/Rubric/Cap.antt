-- ===== src/Analysis/Rubric/Cap.antt =====
-- The compliance cap, for every score sheet, in range or not.
use callsense.Prelude.{◌*◌, ◌≤◌, ◌<◌, true, ◌≡◌, refl, arith}
use callsense.Double.{Double, one, round_places, round_div-le}
use callsense.Analysis.Rubric.{
  DimScores, compute_composite, compliance_cap, raw_composite, rubric_run,
}

one_pos : 0 < one
unfolding one
one_pos = omega arith

cap_units : compliance_cap * 100 ≡ 4000 * one
unfolding rubric_run one
cap_units = refl

round-le-cap : (x : Double) → x ≤ compliance_cap → round_places 2 x ≤ 4000
unfolding round_places
round-le-cap x h = round_div-le (x * 100) one 4000 one_pos (omega (arith, cap_units))

-- With a critical flag the composite is at most 40, whatever the scores are.
pub composite-le-cap : (scores : DimScores) → (compute_composite scores true).0 ≤ 4000
unfolding compute_composite
composite-le-cap scores =
    ground (arith, round-le-cap (raw_composite scores), round-le-cap compliance_cap)
