-- ===== src/Models/Taxonomy.antt =====
-- The closed taxonomies of backend/db/models.py, with the equality that SQL and Python test.
use callsense.Prelude.{ℕ, ◌≡◌, Bool, true, false, arith, ◌==◌}

pub data CallStatus : Type 0 where
  received processing done failed needs_review : CallStatus

pub data JobStage : Type 0 where
  transcribe diarise redact classify analyse validate : JobStage

pub data JobStatus : Type 0 where
  pending running done failed dead : JobStatus

pub data SpeakerRole : Type 0 where
  advisor customer unknown : SpeakerRole

pub data RubricDimension : Type 0 where
  needs_discovery product_knowledge objection_handling compliance_integrity : RubricDimension
  next_step_booking : RubricDimension

pub data FlagTag : Type 0 where
  no_needs_discovery over_promising pressure_tactics price_before_value : FlagTag
  undisclosed_costs weak_trial_booking talk_over_customer pii_exposure non_sales_call : FlagTag

pub data FlagSeverity : Type 0 where
  info warn critical : FlagSeverity

pub data FlagState : Type 0 where
  open_ disputed upheld dismissed : FlagState

pub data CalibrationVerdict : Type 0 where
  true_positive false_positive : CalibrationVerdict

abbrev stage_code : JobStage → ℕ
stage_code transcribe = 0
stage_code diarise = 1
stage_code redact = 2
stage_code classify = 3
stage_code analyse = 4
stage_code validate = 5

abbrev pub stage_eq : JobStage → JobStage → Bool
stage_eq a b = stage_code a == stage_code b

pub stage_eq_sound : (a b : JobStage) → stage_eq a b ≡ true → a ≡ b
stage_eq_sound a b h = ground arith

pub stage_eq_refl : (a : JobStage) → stage_eq a a ≡ true
stage_eq_refl a = ground arith

abbrev dimension_code : RubricDimension → ℕ
dimension_code needs_discovery = 0
dimension_code product_knowledge = 1
dimension_code objection_handling = 2
dimension_code compliance_integrity = 3
dimension_code next_step_booking = 4

abbrev pub dimension_eq : RubricDimension → RubricDimension → Bool
dimension_eq a b = dimension_code a == dimension_code b

abbrev pub is_pending : JobStatus → Bool
is_pending pending = true
is_pending _ = false

abbrev pub is_running : JobStatus → Bool
is_running running = true
is_running _ = false

abbrev pub is_dead : JobStatus → Bool
is_dead dead = true
is_dead _ = false

abbrev pub is_call_done : CallStatus → Bool
is_call_done CallStatus.done = true
is_call_done _ = false

abbrev pub is_advisor : SpeakerRole → Bool
is_advisor advisor = true
is_advisor _ = false

abbrev pub is_customer : SpeakerRole → Bool
is_customer customer = true
is_customer _ = false

abbrev pub is_unknown : SpeakerRole → Bool
is_unknown unknown = true
is_unknown _ = false

abbrev pub is_info : FlagSeverity → Bool
is_info info = true
is_info _ = false

abbrev pub is_critical : FlagSeverity → Bool
is_critical critical = true
is_critical _ = false

abbrev pub is_open : FlagState → Bool
is_open open_ = true
is_open _ = false

abbrev pub is_disputed : FlagState → Bool
is_disputed disputed = true
is_disputed _ = false

abbrev pub is_dismissed : FlagState → Bool
is_dismissed dismissed = true
is_dismissed _ = false

abbrev pub is_non_sales_call : FlagTag → Bool
is_non_sales_call non_sales_call = true
is_non_sales_call _ = false
