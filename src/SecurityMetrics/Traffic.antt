-- ===== src/SecurityMetrics/Traffic.antt =====
-- The traffic counters and the history of gateway/security_metrics.py over any calls.
use erp_security.Prelude.{
  ℕ, ◌+◌, ◌-◌, ◌≤◌, String, ◌≡◌, refl, ap, ◌∙◌, arith, Bool, List, [], ◌∷◌, length, length-append,
  ◌++◌,
}
use erp_security.Prelude.Dict.{Dict, get, put}
use erp_security.Risk.{Decision}
use erp_security.SecurityMetrics.{
  SecurityMetricsTracker, new_tracker, value, count_decision, record_request_decision,
  record_incident_lifecycle, IncidentTimes, IncidentMetric, append, drop_first,
}

-- The sum of all counters.
unfoldable pub counted_all : Dict ℕ → ℕ
counted_all [] = 0
counted_all ((key, n) ∷ d) = n + counted_all d

count_decision-counted_all :
    (key : String) (d : Dict ℕ) → counted_all (count_decision key d) ≡ counted_all d + 1
unfolding counted_all count_decision get put
count_decision-counted_all key [] = refl
count_decision-counted_all key ((k, n) ∷ d) = ground (arith, count_decision-counted_all key d)

-- What a tracker with a bound keeps: the counters add up to the number of requests, and the history
-- is no longer than the bound.
record IsSound (n : ℕ) (t : SecurityMetricsTracker) : Type 0 where
  same_bound : t.max_history ≡ n
  adds_up : counted_all t.decision_counts ≡ t.total_requests
  bounded : length t.incident_history ≤ n

-- Recording a decision keeps a tracker sound.
record_request_decision-IsSound :
    (n : ℕ) (d : Decision) (t : SecurityMetricsTracker)
    → IsSound n t
    → IsSound n (record_request_decision d t)
unfolding record_request_decision
record_request_decision-IsSound n d t h = record {
  same_bound = h.same_bound;
  adds_up = count_decision-counted_all (value d) t.decision_counts ∙ ap (λ n. n + 1) h.adds_up;
  bounded = h.bounded;
}

drop_first-length : (xs : List IncidentMetric) → length (drop_first xs) ≡ length xs - 1
drop_first-length [] = omega arith
drop_first-length (x ∷ xs) = omega arith

append-length :
    (m n : ℕ) (xs : List IncidentMetric) (x : IncidentMetric)
    → m ≡ n
    → length xs ≤ n
    → length (append m xs x) ≤ n
unfolding append
append-length m n xs x same short =
    let ys = xs ++ (x ∷ []) in
    ground (arith, same, short, length-append xs (x ∷ []), drop_first-length ys)

-- Recording an incident keeps a tracker sound.
record_incident_lifecycle-IsSound :
    (n now now' : ℕ) (id category : String) (automated : Bool) (times : IncidentTimes)
    (t : SecurityMetricsTracker)
    → IsSound n t
    → IsSound n (record_incident_lifecycle now now' id category automated times t)
unfolding record_incident_lifecycle
record_incident_lifecycle-IsSound n now now' id category automated times t h = record {
  same_bound = h.same_bound;
  adds_up = h.adds_up;
  bounded = append-length t.max_history n t.incident_history _ h.same_bound h.bounded;
}

-- A call of the tracker.
pub data Call : Type 0 where
  decision : Decision → Call
  incident : ℕ → ℕ → String → String → Bool → IncidentTimes → Call

unfoldable pub perform_all : List Call → SecurityMetricsTracker → SecurityMetricsTracker
perform_all [] t = t
perform_all (decision d ∷ cs) t = perform_all cs (record_request_decision d t)
perform_all (incident now now' id category automated times ∷ cs) t =
    perform_all cs (record_incident_lifecycle now now' id category automated times t)

perform_all-IsSound :
    (n : ℕ) (cs : List Call) (t : SecurityMetricsTracker)
    → IsSound n t
    → IsSound n (perform_all cs t)
unfolding perform_all
perform_all-IsSound n [] t h = h
perform_all-IsSound n (decision d ∷ cs) t h =
    perform_all-IsSound n cs (record_request_decision d t) (record_request_decision-IsSound n d t h)
perform_all-IsSound n (incident now now' id category automated times ∷ cs) t h =
    perform_all-IsSound n cs (record_incident_lifecycle now now' id category automated times t)
      (record_incident_lifecycle-IsSound n now now' id category automated times t h)

-- After any calls of a new tracker the counters of the decisions add up to the number of requests, and the
-- history holds at most as many incidents as its bound.
pub metrics_add_up :
    (cs : List Call) (max_history : ℕ)
    → let t = perform_all cs (new_tracker max_history) in
      (counted_all t.decision_counts ≡ t.total_requests) × (length t.incident_history ≤ max_history)
unfolding new_tracker counted_all
metrics_add_up cs max_history =
    let h =
      perform_all-IsSound max_history cs (new_tracker max_history)
        (record { same_bound = refl; adds_up = refl; bounded = omega arith }) in
    (h.adds_up, omega (arith, h.bounded, h.same_bound))
