-- ===== src/SecurityMetrics/Tests.antt =====
-- Two decisions and an incident on a history of one place.
use erp_security.Prelude.{ℕ, ◌≡◌, ◌≤◌, refl, none, some, true, List, [], ◌∷◌, length}
use erp_security.Risk.{allow, block}
use erp_security.SecurityMetrics.{
  IncidentTimes, SecurityMetricsTracker, new_tracker, get_kpis, record_request_decision,
}
use erp_security.SecurityMetrics.Traffic.{
  Call, decision, incident, perform_all, counted_all, metrics_add_up,
}

abbrev at_once : IncidentTimes
at_once = record {
  event_time_epoch = some 5;
  alert_time_epoch = some 2000005;
  containment_time_epoch = none;
  event_timestamp = none;
  alert_timestamp = none;
  containment_timestamp = some 2000005;
}

abbrev calls : List Call
calls =
    decision block
    ∷ incident 0 0 "INC-1" "UNKNOWN" true at_once
    ∷ decision allow
    ∷ incident 0 0 "INC-2" "UNKNOWN" true at_once
    ∷ []

abbrev after : SecurityMetricsTracker
after = perform_all calls (new_tracker 1)

half_mitigated : (get_kpis after).threat_mitigation_rate ≡ 5000
unfolding get_kpis perform_all erp_security.SecurityMetrics.record_incident_lifecycle
    record_request_decision new_tracker erp_security.Prelude.round_div erp_security.Prelude.Dict.get
    erp_security.Prelude.Dict.put
half_mitigated = refl

detected_in_two_seconds : (get_kpis after).mttd_mean ≡ 2000
unfolding get_kpis perform_all erp_security.SecurityMetrics.record_incident_lifecycle
    record_request_decision new_tracker erp_security.Prelude.round_div
detected_in_two_seconds = refl

metrics_add_up_example :
    (counted_all after.decision_counts ≡ after.total_requests) × (length after.incident_history ≤ 1)
metrics_add_up_example = metrics_add_up calls 1
