-- ===== src/Tests/Disputes.antt =====
-- Disputes against one flag.
use callsense.Prelude.{
  none, some, List, [], ◌∷◌, ◌++◌, ◌≡◌, refl, All, All₂, find_where, exists_where, select_where,
}
use callsense.Models.Taxonomy.{disputed, dismissed}
use callsense.Models.Tables.{Flag, Dispute, AuditLog, Db}
use callsense.Session.{ok, err, http, integrity_error, rollback}
use callsense.Analysis.Rubric.{rubric_run}
use callsense.Analysis.Recompute.{live_composite, dim_scores_from}
use callsense.Analysis.Recompute.Fresh.{IsFresh}
use callsense.Feedback.{parse_resolution, join_flag, raise_dispute}
use callsense.Routes.Disputes.{Request, dispute, decide, dispute_flag, resolve, serve}
use callsense.Routes.Disputes.Moves.{Evolved, serve-Evolved}
use callsense.Routes.Disputes.Audit.{IsMoveEntry, replay, serve-Logged}
use callsense.Routes.Disputes.Fresh.{serve-IsFresh}
use callsense.Routes.Disputes.Refusals.{dispute_twice, resolve-no_quote}
use callsense.Tests.Samples.{sample_flag, scored_db}

abbrev sample_requests : List Request
sample_requests = dispute 7 none none ∷ decide 1 "dismissed" none none 9 ∷ []

scored_IsFresh : IsFresh scored_db
unfolding live_composite dim_scores_from select_where exists_where rubric_run
scored_IsFresh = (refl, tt)

serve-IsFresh_example : IsFresh (serve sample_requests scored_db)
serve-IsFresh_example = serve-IsFresh sample_requests scored_db (tt, tt) scored_IsFresh

serve-Evolved_example : All₂ Evolved scored_db.flags (serve sample_requests scored_db).flags
serve-Evolved_example = serve-Evolved sample_requests scored_db (tt, tt)

raised_once : (dispute_flag 7 none none scored_db).0 ≡ ok 1
unfolding dispute_flag raise_dispute find_where
raised_once = refl

dispute_twice_example :
    (dispute_flag 7 none none (dispute_flag 7 none none scored_db).1).0 ≡ err (http 409)
dispute_twice_example = dispute_twice 7 none none none none scored_db 1 raised_once

-- The measured flag, which has no quote, in dispute.
abbrev quoteless : Flag
quoteless = record sample_flag { quote = none; state = disputed }

abbrev open_dispute : Dispute
open_dispute = record {
  id = 1;
  flag_id = 7;
  raised_by = none;
  note = none;
  resolved_by = none;
  resolution = none;
  resolution_note = none;
  resolved_at = none;
}

abbrev quoteless_db : Db
quoteless_db = record scored_db { flags = quoteless ∷ []; disputes = open_dispute ∷ [] }

quoteless_joined : join_flag 1 quoteless_db ≡ some (open_dispute, quoteless)
unfolding join_flag find_where
quoteless_joined = refl

dismissed_parsed : parse_resolution "dismissed" ≡ some dismissed
unfolding parse_resolution
dismissed_parsed = refl

resolve-no_quote_example :
    ((resolve 1 "dismissed" none none 9 quoteless_db).0 ≡ err integrity_error)
    × ((after : Db) × ((resolve 1 "dismissed" none none 9 quoteless_db).1
          ≡ rollback quoteless_db after))
resolve-no_quote_example =
    resolve-no_quote 1 "dismissed" none none 9 quoteless_db dismissed open_dispute quoteless
      dismissed_parsed quoteless_joined refl refl

serve-Logged_example :
    (entries : List AuditLog) × ((serve sample_requests scored_db).audit_log
      ≡ scored_db.audit_log ++ entries)
    × All IsMoveEntry entries
    × ((serve sample_requests scored_db).flags ≡ replay entries scored_db.flags)
serve-Logged_example = serve-Logged sample_requests scored_db
