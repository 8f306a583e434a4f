-- ===== src/Fixtures/Verbatim.antt =====
-- The comment of backend/fixtures.py: every quote of a canned analysis is a verbatim part of a
-- segment.
use callsense.Prelude.{Bool, true, false, ◌||◌, ◌&&◌, List, [], ◌∷◌, ◌≡◌, refl, contains}
use callsense.Models.Tables.{Text}
use callsense.Analysis.Schema.{DimensionScore, RawFlag}
use callsense.Fixtures.{Line, Fixture, over_promiser, good_discovery, pushy_pressure, hidden_costs}

abbrev pub in_some : Text → List Line → Bool
in_some quote [] = false
in_some quote (l ∷ lines) = contains quote l.text || in_some quote lines

abbrev pub dimensions_stand : List Line → List DimensionScore → Bool
dimensions_stand lines [] = true
dimensions_stand lines (d ∷ dims) = in_some d.evidence_quote lines && dimensions_stand lines dims

abbrev pub flags_stand : List Line → List RawFlag → Bool
flags_stand lines [] = true
flags_stand lines (f ∷ flags) = in_some f.quote lines && flags_stand lines flags

-- Each quote of the analysis is a part of a segment.
abbrev pub quotes_stand : Fixture → Bool
quotes_stand f = dimensions_stand f.segments f.dimensions && flags_stand f.segments f.flags

pub over_promiser-stands : quotes_stand over_promiser ≡ true
unfolding contains
over_promiser-stands = refl

pub good_discovery-stands : quotes_stand good_discovery ≡ true
unfolding contains
good_discovery-stands = refl

pub pushy_pressure-stands : quotes_stand pushy_pressure ≡ true
unfolding contains
pushy_pressure-stands = refl

pub hidden_costs-stands : quotes_stand hidden_costs ≡ true
unfolding contains
hidden_costs-stands = refl
