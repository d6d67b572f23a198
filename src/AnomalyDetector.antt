-- ===== src/AnomalyDetector.antt =====
-- The statistical detector of gateway/anomaly_detection/deterministic_anomaly_detector.py (class
-- DeterministicAnomalyDetector) over the baselines that gateway/baselines/baseline_engine.py keeps
-- (class BaselineEngine, `get_baseline`); how baselines are computed is left out. A score is a number
-- of hundredths of a point, a time one of hundredths of a millisecond, a rate one of hundredths
-- of a call per hour. A request enters with its size, its latency, its hour and its rate, 0 where it
-- names none. A reason text is a constructor with the figure and the limit that it shows.
pub mod Verdicts
mod Tests
use erp_security.Prelude.{
  ℕ, ◌+◌, ◌*◌, min, max, String, concat, Option, none, some, Bool, true, false, not, ◌&&◌, ltb, eqb,
  leb, ◌||◌, if◌then◌else◌, List, [], ◌∷◌, ◌++◌, get_or,
}
use erp_security.Prelude.Dict.{Dict, get}
use erp_security.Prelude.Text.{truthy?, either}

-- What the detector reads of a baseline.
pub record BaselineStats : Type 0 where
  pub user_id : String
  pub endpoint : String
  pub call_rate_p95 : ℕ
  pub request_size_p95 : ℕ
  pub response_time_p95 : ℕ
  pub peak_hours : List ℕ

-- `request_data`.
pub record RequestData : Type 0 where
  pub user_id : Option String
  pub principal_ref : Option String
  pub path : Option String
  pub endpoint : Option String
  pub request_size : ℕ
  pub response_time : ℕ
  pub request_hour : ℕ
  pub current_rate : ℕ

pub data Reason : Type 0 where
  payload_size latency velocity : ℕ → ℕ → Reason
  temporal : ℕ → List ℕ → Reason

pub data Severity : Type 0 where
  low medium high : Severity

pub record AnomalyScore : Type 0 where
  pub is_anomalous : Bool
  pub score : ℕ
  pub reasons : List Reason
  pub severity : Severity

-- `BaselineEngine.get_baseline`.
unfoldable pub get_baseline : String → String → Dict BaselineStats → Option BaselineStats
get_baseline user_id endpoint baselines = get baselines (concat user_id (concat ":" endpoint))

-- `hour in peak_hours`.
abbrev pub is_peak : ℕ → List ℕ → Bool
is_peak hour [] = false
is_peak hour (h ∷ hs) = eqb h hour || is_peak hour hs

abbrev pub has_peaks : List ℕ → Bool
has_peaks [] = false
has_peaks (h ∷ hs) = true

-- The four checks.
unfoldable pub large : RequestData → BaselineStats → Bool
large q b = ltb 0 b.request_size_p95 && ltb (b.request_size_p95 * 2) q.request_size

unfoldable pub slow : RequestData → BaselineStats → Bool
slow q b = ltb 0 b.response_time_p95 && ltb (b.response_time_p95 * 3) q.response_time

unfoldable pub odd_hour : RequestData → BaselineStats → Bool
odd_hour q b = has_peaks b.peak_hours && not (is_peak q.request_hour b.peak_hours)

unfoldable pub frequent : RequestData → BaselineStats → Bool
frequent q b = ltb 0 b.call_rate_p95 && ltb (b.call_rate_p95 * 5) (2 * q.current_rate)

unfoldable pub anomaly_score : RequestData → BaselineStats → ℕ
unfolding large slow odd_hour frequent
anomaly_score q b =
    (if large q b then 2500 else 0)
    + (if slow q b then 2000 else 0)
    + (if odd_hour q b then 1500 else 0)
    + (if frequent q b then 2000 else 0)

abbrev reason_if : Bool → Reason → List Reason
reason_if fires why = if fires then why ∷ [] else []

unfoldable pub reasons_of : RequestData → BaselineStats → List Reason
unfolding large slow odd_hour frequent
reasons_of q b =
    reason_if (large q b) (payload_size q.request_size b.request_size_p95)
    ++ reason_if (slow q b) (latency q.response_time b.response_time_p95)
    ++ reason_if (odd_hour q b) (temporal q.request_hour b.peak_hours)
    ++ reason_if (frequent q b) (velocity q.current_rate b.call_rate_p95)

unfoldable pub severity_of : ℕ → Severity
severity_of score =
    if eqb score 0 || ltb score 2500 then low else if ltb score 5000 then medium else high

unfoldable pub is_anomalous_at : ℕ → Bool
is_anomalous_at score = not (eqb score 0 || ltb score 2500)

unfoldable pub evaluate_baseline : RequestData → BaselineStats → AnomalyScore
unfolding anomaly_score reasons_of severity_of is_anomalous_at
evaluate_baseline q b =
    let bounded = max 0 (min 10000 (anomaly_score q b)) in
    record {
      is_anomalous = is_anomalous_at bounded;
      score = bounded;
      reasons = reasons_of q b;
      severity = severity_of bounded;
    }

abbrev pub no_anomaly : AnomalyScore
no_anomaly = record { is_anomalous = false; score = 0; reasons = []; severity = low }

unfoldable pub detect_anomalies : RequestData → Dict BaselineStats → AnomalyScore
unfolding get_baseline evaluate_baseline
detect_anomalies q baselines =
    let user_id = get_or (either q.user_id q.principal_ref) "unknown" in
    let endpoint = get_or (either q.path q.endpoint) "unknown" in
    elim (get_baseline user_id endpoint baselines) [
      | none ↦ no_anomaly
      | some b ↦ evaluate_baseline q b
    ]
