-- ===== src/Analysis/Schema.antt =====
-- backend/analysis/schema.py: the model's answer, and what Pydantic accepts. The JSON text is
-- decoded by Pydantic; a field that it decodes to a number is checked against its bounds here.
use callsense.Prelude.{ℕ, Bool, true, ◌&&◌, List, [], ◌∷◌, leb}
use callsense.Double.{Double, one}
use callsense.Models.Taxonomy.{RubricDimension, FlagTag}
use callsense.Models.Tables.{Text}

pub record DimensionScore : Type 0 where
  pub dimension : RubricDimension
  pub score : ℕ
  pub evidence_quote : Text

pub record RawFlag : Type 0 where
  pub tag : FlagTag
  pub quote : Text
  pub reason : Text
  pub confidence : Double

pub record AnalysisResult : Type 0 where
  pub dimensions : List DimensionScore
  pub flags : List RawFlag

-- score: ge=0, le=5
unfoldable pub scores_valid : List DimensionScore → Bool
scores_valid [] = true
scores_valid (d ∷ dims) = leb d.score 5 && scores_valid dims

-- confidence: ge=0.0, le=1.0
unfoldable pub confidences_valid : List RawFlag → Bool
confidences_valid [] = true
confidences_valid (f ∷ flags) = leb f.confidence one && confidences_valid flags

unfoldable pub is_valid : AnalysisResult → Bool
is_valid r = scores_valid r.dimensions && confidences_valid r.flags
