-- ===== src/SecurityMetrics.antt =====
-- The counters of gateway/security_metrics.py (class SecurityMetricsTracker). The gateway records the
-- decisions of gateway/risk_engine.py, whose texts are in capitals, so that `upper` keeps them. A time is
-- a number of microseconds, 0 as the code has it for a time that is not given; a mean is one of
-- milliseconds, a rate of requests one of hundredths of a percent, that of incidents one of tenths.
pub mod Traffic
mod Tests
use erp_security.Prelude.{
  ℕ, ◌+◌, ◌-◌, ◌*◌, String, Option, none, some, Bool, true, false, ltb, leb, eqb, round_div,
  if◌then◌else◌, List, [], ◌∷◌, ◌++◌, get_or, length,
}
use erp_security.Prelude.Dict.{Dict, get, put}
use erp_security.Risk.{Decision, allow, challenge, limit, block}

pub record IncidentMetric : Type 0 where
  pub incident_id : String
  pub event_timestamp : ℕ
  pub alert_timestamp : ℕ
  pub containment_timestamp : Option ℕ
  pub threat_category : String
  pub automated : Bool

pub record SecurityMetricsTracker : Type 0 where
  pub max_history : ℕ
  pub incident_history : List IncidentMetric
  pub total_requests : ℕ
  pub decision_counts : Dict ℕ

-- `SecurityMetricsTracker.__init__`.
unfoldable pub new_tracker : ℕ → SecurityMetricsTracker
new_tracker max_history = record {
  max_history = max_history;
  incident_history = [];
  total_requests = 0;
  decision_counts =
      ("ALLOW", 0) ∷ ("CHALLENGE", 0) ∷ ("LIMIT", 0) ∷ ("BLOCK", 0) ∷ ("MITIGATED", 0) ∷ [];
}

-- `decision.value`.
unfoldable pub value : Decision → String
value allow = "ALLOW"
value challenge = "CHALLENGE"
value limit = "LIMIT"
value block = "BLOCK"

unfoldable pub count_decision : String → Dict ℕ → Dict ℕ
count_decision key counts = put counts key (get_or (get counts key) 0 + 1)

unfoldable pub record_request_decision : Decision → SecurityMetricsTracker → SecurityMetricsTracker
unfolding count_decision value
record_request_decision decision t = record t {
  total_requests = t.total_requests + 1;
  decision_counts = count_decision (value decision) t.decision_counts;
}

abbrev drop_first : List IncidentMetric → List IncidentMetric
drop_first [] = []
drop_first (x ∷ xs) = xs

-- `append` on a `deque(maxlen=n)`.
unfoldable pub append : ℕ → List IncidentMetric → IncidentMetric → List IncidentMetric
append n xs x = let ys = xs ++ (x ∷ []) in if ltb n (length ys) then drop_first ys else ys

-- A time given as an epoch, else as a timestamp that is not 0, else the clock's.
unfoldable pub time_of : ℕ → Option ℕ → Option ℕ → ℕ
time_of now (some epoch) timestamp = epoch
time_of now none none = now
time_of now none (some timestamp) = if eqb timestamp 0 then now else timestamp

-- The times of a call of `record_incident_lifecycle`.
pub record IncidentTimes : Type 0 where
  pub event_time_epoch : Option ℕ
  pub alert_time_epoch : Option ℕ
  pub containment_time_epoch : Option ℕ
  pub event_timestamp : Option ℕ
  pub alert_timestamp : Option ℕ
  pub containment_timestamp : Option ℕ

abbrev containment_of : Option ℕ → Option ℕ → Option ℕ
containment_of (some epoch) timestamp = some epoch
containment_of none timestamp = timestamp

-- The clock is read for the event and for the alert.
unfoldable pub record_incident_lifecycle :
    ℕ → ℕ → String → String → Bool → IncidentTimes → SecurityMetricsTracker → SecurityMetricsTracker
unfolding time_of append
record_incident_lifecycle now now' id category automated times t =
    let incident : IncidentMetric = record {
      incident_id = id;
      event_timestamp = time_of now times.event_time_epoch times.event_timestamp;
      alert_timestamp = time_of now' times.alert_time_epoch times.alert_timestamp;
      containment_timestamp =
          containment_of times.containment_time_epoch times.containment_timestamp;
      threat_category = category;
      automated = automated;
    } in
    record t { incident_history = append t.max_history t.incident_history incident }

-- `ttr` of an incident, where it counts.
unfoldable pub time_to_respond : IncidentMetric → List ℕ
time_to_respond i = elim i.containment_timestamp [
  | none ↦ []
  | some contained ↦
      if eqb contained 0
      then []
      else if leb i.alert_timestamp contained
      then (contained - i.alert_timestamp) ∷ []
      else []
]

unfoldable pub mttd_list : List IncidentMetric → List ℕ
mttd_list [] = []
mttd_list (i ∷ is) = (i.alert_timestamp - i.event_timestamp) ∷ mttd_list is

unfoldable pub mttr_list : List IncidentMetric → List ℕ
unfolding time_to_respond
mttr_list [] = []
mttr_list (i ∷ is) = time_to_respond i ++ mttr_list is

unfoldable pub auto_count : List IncidentMetric → ℕ
auto_count [] = 0
auto_count (i ∷ is) = (if i.automated then 1 else 0) + auto_count is

abbrev sum : List ℕ → ℕ
sum [] = 0
sum (x ∷ xs) = x + sum xs

-- The mean of some microseconds, in milliseconds.
unfoldable pub mean : List ℕ → ℕ
mean xs = if eqb (length xs) 0 then 0 else round_div (sum xs) (1000 * length xs)

pub record Kpis : Type 0 where
  pub total_requests_processed : ℕ
  pub traffic_breakdown : Dict ℕ
  pub threat_mitigation_rate : ℕ
  pub total_incidents_tracked : ℕ
  pub mttd_mean : ℕ
  pub mttr_mean : ℕ
  pub automated_containment_rate : ℕ

unfoldable pub get_kpis : SecurityMetricsTracker → Kpis
unfolding mttd_list mttr_list auto_count mean
get_kpis t =
    let mitigated =
      get_or (get t.decision_counts "BLOCK") 0 + get_or (get t.decision_counts "MITIGATED") 0 in
    let incidents = length t.incident_history in
    record {
      total_requests_processed = t.total_requests;
      traffic_breakdown = t.decision_counts;
      threat_mitigation_rate =
          if eqb t.total_requests 0 then 0 else round_div (10000 * mitigated) t.total_requests;
      total_incidents_tracked = incidents;
      mttd_mean = mean (mttd_list t.incident_history);
      mttr_mean = mean (mttr_list t.incident_history);
      automated_containment_rate =
          if eqb incidents 0
          then 1000
          else round_div (1000 * auto_count t.incident_history) incidents;
    }
