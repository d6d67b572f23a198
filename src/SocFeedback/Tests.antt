-- ===== src/SocFeedback/Tests.antt =====
-- Three verdicts on two rules.
use erp_security.Prelude.{String, ◌≡◌, none, some, List, [], ◌∷◌}
use erp_security.SocFeedback.{
  FeedbackTag, false_positive, confirmed_attack, SocFeedbackRecord, rule_stats,
}
use erp_security.SocFeedback.Counts.{stats_for, tally, stats-tally}

abbrev verdict : FeedbackTag → String → SocFeedbackRecord
verdict tag rule = record {
  analyst_id = "soc_analyst";
  tag = tag;
  request_id = some "req-1";
  alert_id = none;
  rule_id = some rule;
  notes = "";
  target_entity = none;
  recommended_action = none;
}

abbrev verdicts : List SocFeedbackRecord
verdicts =
    verdict false_positive "R006"
    ∷ verdict confirmed_attack "R002"
    ∷ verdict confirmed_attack "R006"
    ∷ []

stats-tally_example : stats_for "R006" (rule_stats verdicts []) ≡ tally "R006" verdicts
stats-tally_example = stats-tally verdicts "R006"
