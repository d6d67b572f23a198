-- ===== src/AnomalyDetector/Verdicts.antt =====
-- What the detector of gateway/anomaly_detection/deterministic_anomaly_detector.py flags.
use erp_security.Prelude.{
  ◌≡◌, arith, Bool, not, eqb, ltb, ap, ◌∙◌, ◌&&◌, ◌||◌, ℕ, ◌+◌, ◌*◌, min, max, refl, true, false,
  List, [], ◌∷◌, if◌then◌else◌, Option, some, get_or,
}
use erp_security.Prelude.Dict.{Dict}
use erp_security.Prelude.Text.{either}
use erp_security.AnomalyDetector.{
  BaselineStats, RequestData, Severity, low, medium, high, large, slow, odd_hour, frequent,
  anomaly_score, is_anomalous_at, severity_of, is_peak, has_peaks, evaluate_baseline, get_baseline,
  detect_anomalies,
}

-- The baseline of the user and the endpoint that a request names.
abbrev pub baseline_of : RequestData → Dict BaselineStats → Option BaselineStats
baseline_of q baselines =
    get_baseline (get_or (either q.user_id q.principal_ref) "unknown")
      (get_or (either q.path q.endpoint) "unknown") baselines

-- A figure beyond `num / den` times a limit, where there is a limit other than 0.
abbrev pub beyond : ℕ → ℕ → ℕ → ℕ → Bool
beyond num den limit figure = not (eqb limit 0) && ltb (num * limit) (den * figure)

-- An hour that is none of the peak hours, where there are any.
abbrev outside : ℕ → List ℕ → Bool
outside hour [] = true
outside hour (h ∷ hs) = not (eqb hour h) && outside hour hs

abbrev pub off_peak : ℕ → List ℕ → Bool
off_peak hour [] = false
off_peak hour (h ∷ hs) = outside hour (h ∷ hs)

-- The deviations of a request from a baseline, each said with its own limit.
pub record Deviations : Type 0 where
  pub size : Bool
  pub latency : Bool
  pub hour : Bool
  pub rate : Bool

abbrev pub deviations : RequestData → BaselineStats → Deviations
deviations q b = record {
  size = beyond 2 1 b.request_size_p95 q.request_size;
  latency = beyond 3 1 b.response_time_p95 q.response_time;
  hour = off_peak q.request_hour b.peak_hours;
  rate = beyond 5 2 b.call_rate_p95 q.current_rate;
}

-- The size by itself, or two of the other three.
abbrev pub deviates : Deviations → Bool
deviates d = d.size || (d.latency && d.hour) || (d.latency && d.rate) || (d.hour && d.rate)

-- Three of the four deviations.
abbrev pub deviates_widely : Deviations → Bool
deviates_widely d =
    (d.size && d.latency && d.hour)
    || (d.size && d.latency && d.rate)
    || (d.size && d.hour && d.rate)
    || (d.latency && d.hour && d.rate)

-- The severity that the number of deviations calls for.
abbrev pub graded : Deviations → Severity
graded d = if deviates_widely d then high else if deviates d then medium else low

outside-peak : (hour : ℕ) (hs : List ℕ) → not (is_peak hour hs) ≡ outside hour hs
outside-peak hour [] = refl
outside-peak hour (h ∷ hs) = ground (arith, outside-peak hour hs)

large-beyond : (q : RequestData) (b : BaselineStats) → large q b ≡ (deviations q b).size
unfolding large
large-beyond q b = ground arith

slow-beyond : (q : RequestData) (b : BaselineStats) → slow q b ≡ (deviations q b).latency
unfolding slow
slow-beyond q b = ground arith

odd_hour-outside : (q : RequestData) (b : BaselineStats) → odd_hour q b ≡ (deviations q b).hour
unfolding odd_hour
odd_hour-outside q b = peaks q.request_hour b.peak_hours
  where
    peaks : (hour : ℕ) (hs : List ℕ) → has_peaks hs && not (is_peak hour hs) ≡ off_peak hour hs
    peaks hour [] = refl
    peaks hour (h ∷ hs) = outside-peak hour (h ∷ hs)

frequent-beyond : (q : RequestData) (b : BaselineStats) → frequent q b ≡ (deviations q b).rate
unfolding frequent
frequent-beyond q b = ground arith

-- The figures of the four checks.
abbrev scored : Deviations → ℕ
scored d =
    (if d.size then 2500 else 0)
    + (if d.latency then 2000 else 0)
    + (if d.hour then 1500 else 0)
    + (if d.rate then 2000 else 0)

anomaly_score-scored :
    (q : RequestData) (b : BaselineStats) → anomaly_score q b ≡ scored (deviations q b)
unfolding anomaly_score
anomaly_score-scored q b =
    rw (large-beyond q b, slow-beyond q b, odd_hour-outside q b, frequent-beyond q b) refl

scored-flagged : (d : Deviations) → is_anomalous_at (max 0 (min 10000 (scored d))) ≡ deviates d
unfolding is_anomalous_at
scored-flagged d = ground arith

scored-graded : (d : Deviations) → severity_of (max 0 (min 10000 (scored d))) ≡ graded d
unfolding severity_of
scored-graded d = ground arith

evaluate_baseline-flagged :
    (q : RequestData) (b : BaselineStats)
    → (evaluate_baseline q b).is_anomalous ≡ deviates (deviations q b)
unfolding evaluate_baseline
evaluate_baseline-flagged q b =
    ap (λ n. is_anomalous_at (max 0 (min 10000 n))) (anomaly_score-scored q b)
    ∙ scored-flagged (deviations q b)

evaluate_baseline-graded :
    (q : RequestData) (b : BaselineStats)
    → (evaluate_baseline q b).severity ≡ graded (deviations q b)
unfolding evaluate_baseline
evaluate_baseline-graded q b =
    ap (λ n. severity_of (max 0 (min 10000 n))) (anomaly_score-scored q b)
    ∙ scored-graded (deviations q b)

-- Where there is a baseline of the user and the endpoint that a request names, count as deviations:
-- a size beyond twice and a latency beyond three times the 95th percentile, a rate beyond 2.5 times
-- it, each where the percentile is not 0, and an hour that is none of the peak hours, where there
-- are any. The request is flagged exactly if its size deviates or two of the other three do, and
-- its severity is high exactly if three of the four deviate, medium for the other flagged
-- requests, low for the rest.
pub flags_deviations :
    (q : RequestData) (b : BaselineStats) (baselines : Dict BaselineStats)
    → baseline_of q baselines ≡ some b
    → ((detect_anomalies q baselines).is_anomalous ≡ deviates (deviations q b))
      × ((detect_anomalies q baselines).severity ≡ graded (deviations q b))
unfolding detect_anomalies
flags_deviations q b baselines found =
    rw (found, detect_anomalies) (evaluate_baseline-flagged q b, evaluate_baseline-graded q b)
