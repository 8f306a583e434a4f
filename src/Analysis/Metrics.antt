-- ===== src/Analysis/Metrics.antt =====
-- backend/analysis/metrics.py: the share of the advisor in the speaking time.
use callsense.Prelude.{ℕ, Bool, Option, none, some, List, [], ◌∷◌, ◌==◌, if◌then◌else◌}
use callsense.Double.{Double, add, sub, div, decimal, round_places}
use callsense.Models.Taxonomy.{SpeakerRole, is_advisor, is_customer}
use callsense.Transcription.Base.{TxSegment}

unfoldable pub talk_ratio_threshold : Double
talk_ratio_threshold = decimal 75 2

-- sum(s.end_s - s.start_s for s in segments if …), from the left. The schema keeps end_s from
-- lying before start_s, so no difference is negative.
unfoldable pub speaking_time : (SpeakerRole → Bool) → Double → List TxSegment → Double
speaking_time p total [] = total
speaking_time p total (s ∷ segments) =
    speaking_time p (if p s.speaker then add total (sub s.end_s s.start_s) else total) segments

-- In thousandths.
unfoldable pub talk_ratio : List TxSegment → Option ℕ
talk_ratio segments =
    let advisor = speaking_time is_advisor 0 segments in
    let customer = speaking_time is_customer 0 segments in
    let total = add advisor customer in
    if total == 0 then none else some (round_places 3 (div advisor total))
