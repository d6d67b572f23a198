-- ===== src/AnomalyDetector/Tests.antt =====
-- Runs of the detector of gateway/anomaly_detection/deterministic_anomaly_detector.py.
use erp_security.Prelude.{◌≡◌, refl, none, some, [], ◌∷◌}
use erp_security.AnomalyDetector.{
  BaselineStats, RequestData, detect_anomalies, get_baseline, medium,
}
use erp_security.Prelude.Dict.{Dict}
use erp_security.AnomalyDetector.Verdicts.{
  baseline_of, deviations, deviates, graded, flags_deviations,
}

abbrev profile : BaselineStats
profile = record {
  user_id = "eve";
  endpoint = "/api/orders";
  call_rate_p95 = 500;
  request_size_p95 = 200;
  response_time_p95 = 3000;
  peak_hours = 9 ∷ 10 ∷ [];
}

-- A slow request at night.
abbrev at_night : RequestData
at_night = record {
  user_id = some "eve";
  principal_ref = none;
  path = some "/api/orders";
  endpoint = none;
  request_size = 300;
  response_time = 9001;
  request_hour = 3;
  current_rate = 0;
}

night_flagged : (detect_anomalies at_night (("eve:/api/orders", profile) ∷ [])).severity ≡ medium
unfolding detect_anomalies erp_security.Prelude.Dict.get
night_flagged = refl

abbrev profiles : Dict BaselineStats
profiles = ("eve:/api/orders", profile) ∷ []

flags_deviations_example :
    ((detect_anomalies at_night profiles).is_anomalous ≡ deviates (deviations at_night profile))
    × ((detect_anomalies at_night profiles).severity ≡ graded (deviations at_night profile))
flags_deviations_example = flags_deviations at_night profile profiles found
  where
    found : baseline_of at_night profiles ≡ some profile
    found = unfold get_baseline erp_security.Prelude.Dict.get in refl
