-- ===== src/Analysis/Rubric.antt =====
-- backend/analysis/rubric.py: the weights, the severities, and the composite in double arithmetic.
pub mod Composite
pub mod Cap
use callsense.Prelude.{ℕ, Bool, false, String, List, [], ◌∷◌, if◌then◌else◌, ltb}
use callsense.Double.{Double, add, mul, div, from_int, decimal, round_places}
use callsense.Models.Taxonomy.{
  RubricDimension, needs_discovery, product_knowledge, objection_handling, compliance_integrity,
  next_step_booking, FlagTag, no_needs_discovery, over_promising, pressure_tactics,
  price_before_value, undisclosed_costs, weak_trial_booking, talk_over_customer, pii_exposure,
  non_sales_call, FlagSeverity, info, warn, critical, dimension_eq,
}

abbrev pub rubric_version : String
rubric_version = "v1"

abbrev pub dimension_weights : List (RubricDimension × Double)
dimension_weights =
    (needs_discovery, decimal 25 2)
    ∷ (product_knowledge, decimal 15 2)
    ∷ (objection_handling, decimal 20 2)
    ∷ (compliance_integrity, decimal 25 2)
    ∷ (next_step_booking, decimal 15 2)
    ∷ []

unfoldable pub tag_severity : FlagTag → FlagSeverity
tag_severity no_needs_discovery = warn
tag_severity over_promising = critical
tag_severity pressure_tactics = critical
tag_severity price_before_value = warn
tag_severity undisclosed_costs = critical
tag_severity weak_trial_booking = warn
tag_severity talk_over_customer = info
tag_severity pii_exposure = warn
tag_severity non_sales_call = info

unfoldable pub compliance_cap : Double
compliance_cap = from_int 40

unfoldable pub confidence_threshold : Double
confidence_threshold = decimal 6 1

-- A `dict[RubricDimension, int]`: the last value that was assigned to a key stands first.
abbrev pub DimScores : Type 0
DimScores = List (RubricDimension × ℕ)

-- scores.get(dim, 0)
unfoldable pub get_score : DimScores → RubricDimension → ℕ
get_score [] dim = 0
get_score ((d, s) ∷ scores) dim = if dimension_eq d dim then s else get_score scores dim

-- (scores.get(dim, 0) / 5.0) * weight
unfoldable pub weighted : ℕ → Double → Double
weighted score weight = mul (div (from_int score) (from_int 5)) weight

-- sum(…), from the left
unfoldable pub weighted_sum : DimScores → Double → List (RubricDimension × Double) → Double
weighted_sum scores total [] = total
weighted_sum scores total ((dim, weight) ∷ rest) =
    weighted_sum scores (add total (weighted (get_score scores dim) weight)) rest

unfoldable pub raw_composite : DimScores → Double
raw_composite scores = mul (weighted_sum scores 0 dimension_weights) (from_int 100)

abbrev min_double : Double → Double → Double
min_double a b = if ltb b a then b else a

-- The composite, in hundredths, and whether it was capped.
unfoldable pub compute_composite : DimScores → Bool → ℕ × Bool
compute_composite scores has_critical_flag =
    let raw = raw_composite scores in
    if has_critical_flag
    then (round_places 2 (min_double raw compliance_cap), ltb compliance_cap raw)
    else (round_places 2 raw, false)

-- Opens all that a run of `compute_composite` computes with.
unfoldable pub rubric_run : Unit {0}
unfolding compute_composite raw_composite weighted_sum weighted get_score compliance_cap mul div add
    from_int decimal round_places
rubric_run = tt
