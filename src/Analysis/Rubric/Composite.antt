-- ===== src/Analysis/Rubric/Composite.antt =====
-- Every score sheet of the rubric, by evaluation: what double arithmetic makes of the weighted sum.
use callsense.Prelude.{
  ℕ, zero, suc, ◌+◌, ◌*◌, ◌≤◌, Bool, true, ◌≡◌, ◌≢◌, refl, ◌&&◌, List, [], ◌∷◌, arith, ◌==◌,
  if◌then◌else◌, ltb, leb,
}
use callsense.Double.{Double, add, mul, from_int, decimal, round_places}
use callsense.Models.Taxonomy.{
  RubricDimension, needs_discovery, product_knowledge, objection_handling, compliance_integrity,
  next_step_booking,
}
use callsense.Analysis.Rubric.{
  DimScores, dimension_weights, get_score, weighted, weighted_sum, raw_composite, compliance_cap,
  compute_composite, rubric_run,
}

-- What a score of one is worth in the composite: a fifth of the weight, in points of 100.
abbrev pub points : RubricDimension → ℕ
points needs_discovery = 5
points product_knowledge = 3
points objection_handling = 4
points compliance_integrity = 5
points next_step_booking = 3

abbrev pub sum_points : DimScores → ℕ → List (RubricDimension × Double) → ℕ
sum_points scores total [] = total
sum_points scores total ((dim, _) ∷ rest) =
    sum_points scores (total + get_score scores dim * points dim) rest

-- The composite that the weights define, with no rounding.
abbrev pub exact_composite : DimScores → ℕ
exact_composite scores = sum_points scores 0 dimension_weights

abbrev pub InRange : DimScores → Type 0
InRange scores = (dim : RubricDimension) → get_score scores dim ≤ 5

-- The rounded total is the exact one, and the two stand alike to the cap: below it together, and
-- above it together.
agrees : Double → ℕ → Bool
agrees total exact =
    let raw = mul total (from_int 100) in
    (round_places 2 raw == exact * 100)
    && (if ltb exact 40 then ltb raw compliance_cap else leb compliance_cap raw)
    && (if ltb 40 exact then ltb compliance_cap raw else true)

all_scores : (ℕ → Bool) → Bool
all_scores p = p 0 && p 1 && p 2 && p 3 && p 4 && p 5

all_scores_sound : (p : ℕ → Bool) (s : ℕ) → all_scores p ≡ true → s ≤ 5 → p s ≡ true
unfolding all_scores
all_scores_sound p zero h b = ground arith
all_scores_sound p (suc zero) h b = ground arith
all_scores_sound p (suc (suc zero)) h b = ground arith
all_scores_sound p (suc (suc (suc zero))) h b = ground arith
all_scores_sound p (suc (suc (suc (suc zero)))) h b = ground arith
all_scores_sound p (suc (suc (suc (suc (suc zero))))) h b = ground arith
all_scores_sound p (suc (suc (suc (suc (suc (suc s)))))) h b = absurd (omega arith)

-- Every way to go on from two totals ends in totals that agree.
all_sheets : Double → ℕ → List (RubricDimension × Double) → Bool
all_sheets total exact [] = agrees total exact
all_sheets total exact ((dim, weight) ∷ rest) =
    all_scores (λ s. all_sheets (add total (weighted s weight)) (exact + s * points dim) rest)

all_sheets_sound :
    (scores : DimScores) (ws : List (RubricDimension × Double)) (total exact : ℕ)
    → InRange scores
    → all_sheets total exact ws ≡ true
    → agrees (weighted_sum scores total ws) (sum_points scores exact ws) ≡ true
unfolding all_sheets weighted_sum
all_sheets_sound scores [] total exact r h = h
all_sheets_sound scores ((dim, weight) ∷ rest) total exact r h =
    let s = get_score scores dim in
    all_sheets_sound scores rest (add total (weighted s weight)) (exact + s * points dim) r (
      all_scores_sound
        (λ n. all_sheets (add total (weighted n weight)) (exact + n * points dim) rest) s h (r dim))

-- Opens all that the evaluation computes with.
table_run : Unit {0}
unfolding all_sheets all_scores agrees rubric_run
table_run = tt

abbrev later_weights : List (RubricDimension × Double)
later_weights =
    (product_knowledge, decimal 15 2)
    ∷ (objection_handling, decimal 20 2)
    ∷ (compliance_integrity, decimal 25 2)
    ∷ (next_step_booking, decimal 15 2)
    ∷ []

table_0 : all_sheets (add 0 (weighted 0 (decimal 25 2))) 0 later_weights ≡ true
unfolding table_run
table_0 = refl

table_1 : all_sheets (add 0 (weighted 1 (decimal 25 2))) 5 later_weights ≡ true
unfolding table_run
table_1 = refl

table_2 : all_sheets (add 0 (weighted 2 (decimal 25 2))) 10 later_weights ≡ true
unfolding table_run
table_2 = refl

table_3 : all_sheets (add 0 (weighted 3 (decimal 25 2))) 15 later_weights ≡ true
unfolding table_run
table_3 = refl

table_4 : all_sheets (add 0 (weighted 4 (decimal 25 2))) 20 later_weights ≡ true
unfolding table_run
table_4 = refl

table_5 : all_sheets (add 0 (weighted 5 (decimal 25 2))) 25 later_weights ≡ true
unfolding table_run
table_5 = refl

-- The evaluation of all 7776 sheets, by the score of the first dimension.
table :
    (s : ℕ)
    → s ≤ 5
    → all_sheets (add 0 (weighted s (decimal 25 2))) (0 + s * 5) later_weights ≡ true
table zero b = table_0
table (suc zero) b = table_1
table (suc (suc zero)) b = table_2
table (suc (suc (suc zero))) b = table_3
table (suc (suc (suc (suc zero)))) b = table_4
table (suc (suc (suc (suc (suc zero))))) b = table_5
table (suc (suc (suc (suc (suc (suc s)))))) b = absurd (omega arith)

totals-agree :
    (scores : DimScores)
    → InRange scores
    → agrees (weighted_sum scores 0 dimension_weights) (exact_composite scores) ≡ true
unfolding weighted_sum
totals-agree scores r =
    let s = get_score scores needs_discovery in
    all_sheets_sound scores later_weights (add 0 (weighted s (decimal 25 2))) (0 + s * 5) r
      (table s (r needs_discovery))

round-cap : round_places 2 compliance_cap ≡ 4000
unfolding rubric_run
round-cap = refl

-- For every sheet of scores from 0 to 5 the composite is the weighted sum to the last hundredth,
-- cut off at 40 if there is a critical flag: no rounding error of the doubles remains.
pub compute_composite-eq-exact :
    (scores : DimScores) (has_critical : Bool)
    → InRange scores
    → (compute_composite scores has_critical).0
      ≡ (if has_critical && ltb 40 (exact_composite scores) then 40 else exact_composite scores)
        * 100
unfolding compute_composite raw_composite agrees
compute_composite-eq-exact scores has_critical r = ground (arith, totals-agree scores r, round-cap)

-- For such a sheet whose weighted sum is not 40, the composite is reported as capped exactly if
-- there is a critical flag and the sum is above 40.
pub capped_iff :
    (scores : DimScores) (has_critical : Bool)
    → InRange scores
    → exact_composite scores ≢ 40
    → (compute_composite scores has_critical).1 ≡ (has_critical && ltb 40 (exact_composite scores))
unfolding compute_composite raw_composite agrees
capped_iff scores has_critical r ne = ground (arith, totals-agree scores r)
