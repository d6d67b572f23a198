-- ===== src/CanaryRouter/Guard.antt =====
-- The automatic rollback of gateway/canary_router.py.
use erp_security.Prelude.{
  ℕ, ◌≤◌, ◌<◌, leb, min, max, String, none, some, Bool, true, ◌≡◌, ◌⊎◌, inl, inr, arith, refl,
  Option-cases, eq_refl, get_or,
}
use erp_security.Prelude.Dict.{get, get-put}
use erp_security.Prelude.Text.{truthy}
use erp_security.CanaryRouter.Metrics.{
  Stats, TrafficMetrics, get_stats, record_request, traffic_metrics,
}
use erp_security.CanaryRouter.Router.{CanaryRouter, CanaryStage, Reason, rollback}
use erp_security.CanaryRouter.Slo.{
  get_route_budget, get_route_key, record_canary, route_breach, aggregate_breach, find_breach,
  evaluate_canary_slo, record_metric,
}

-- Too few samples to judge, or a rate and a latency within their limits.
abbrev pub Within : ℕ → ℕ → ℕ → Stats → Type 0
Within limit_p95 limit_err min_samples s =
    (s.window_samples < min_samples) ⊎ ((s.error_rate ≤ limit_err) × (s.p95_latency_ms ≤ limit_p95))

abbrev pub IsRolledBack : CanaryRouter → Type 0
IsRolledBack r = (r.stage ≡ CanaryStage.rolled_back) × (r.weight ≡ 0)

aggregate_breach-Within :
    (p95 err min_samples : ℕ) (s : Stats)
    → aggregate_breach p95 err min_samples s ≡ none
    → Within p95 err min_samples s
unfolding aggregate_breach
aggregate_breach-Within p95 err min_samples s h = ground arith

route_breach-Within :
    (key : String) (p95 err min_samples : ℕ) (s : Stats)
    → route_breach key (p95, err) min_samples s ≡ none
    → Within p95 err (min min_samples 15) s
unfolding route_breach
route_breach-Within key p95 err min_samples s h = ground arith

find_breach-Within :
    (p method : String) (r : CanaryRouter) (m : TrafficMetrics)
    → truthy p ≡ true
    → get r.canary_route_metrics (get_route_key p method) ≡ some m
    → find_breach (some p) method r ≡ none
    → let (p95, err) = get_route_budget (some p) method r in
      Within
        (max r.max_p95_latency_ms p95)
        (max r.max_error_rate err)
        r.min_eval_samples
        (get_stats r.canary_metrics)
      × Within p95 err (min r.min_eval_samples 15) (get_stats m)
unfolding find_breach
find_breach-Within p method r m named known quiet =
    let (p95, err) = get_route_budget (some p) method r in
    ground (
      arith,
      aggregate_breach-Within (max r.max_p95_latency_ms p95) (max r.max_error_rate err)
          r.min_eval_samples (get_stats r.canary_metrics),
      route_breach-Within (get_route_key p method) p95 err r.min_eval_samples (get_stats m),
    )

-- The router as it stands keeps within its limits, on the route of a path and in total.
abbrev pub Sound : String → String → CanaryRouter → Type 0
Sound p method r =
    let (p95, err) = get_route_budget (some p) method r in
    let metric =
      get_or (get r.canary_route_metrics (get_route_key p method)) (traffic_metrics 500) in
    Within (max r.max_p95_latency_ms p95) (max r.max_error_rate err) r.min_eval_samples
      (get_stats r.canary_metrics)
    × Within p95 err (min r.min_eval_samples 15) (get_stats metric)

evaluate-quiet :
    (p method : String) (now : ℕ) (r : CanaryRouter)
    → find_breach (some p) method r ≡ none
    → evaluate_canary_slo (some p) method now r ≡ r
unfolding evaluate_canary_slo
evaluate-quiet p method now r quiet = ground arith

evaluate-breach :
    (p method : String) (now : ℕ) (r : CanaryRouter) (reason : Reason)
    → find_breach (some p) method r ≡ some reason
    → evaluate_canary_slo (some p) method now r ≡ rollback reason now r
unfolding evaluate_canary_slo
evaluate-breach p method now r reason breach = ground arith

record_metric-evaluates :
    (latency status : ℕ) (p method : String) (now : ℕ) (r : CanaryRouter)
    → r.auto_rollback_enabled ≡ true
    → record_metric true latency status (some p) method now r
      ≡ evaluate_canary_slo
          (some p)
          method
          now
          (record_canary latency (leb 500 status) (some p) method r)
unfolding record_metric
record_metric-evaluates latency status p method now r auto = ground arith

evaluate-guards :
    (p method : String) (now : ℕ) (r : CanaryRouter) (m : TrafficMetrics)
    → truthy p ≡ true
    → get r.canary_route_metrics (get_route_key p method) ≡ some m
    → IsRolledBack (evaluate_canary_slo (some p) method now r)
      ⊎ Sound p method (evaluate_canary_slo (some p) method now r)
unfolding rollback
evaluate-guards p method now r m named known = elim (Option-cases (find_breach (some p) method r)) [
  | inl quiet ↦ inr (
      rw (evaluate-quiet p method now r quiet, known)
        (find_breach-Within p method r m named known quiet))
  | inr (reason, breach) ↦ inl (rw (evaluate-breach p method now r reason breach) (refl, refl))
]

record_canary-known :
    (latency : ℕ) (is_error : Bool) (p method : String) (r : CanaryRouter)
    → truthy p ≡ true
    → let r' = record_canary latency is_error (some p) method r in
      let key = get_route_key p method in
      get r'.canary_route_metrics key
      ≡ some (
          record_request latency is_error
            (get_or (get r.canary_route_metrics key) (traffic_metrics 500)))
unfolding record_canary
record_canary-known latency is_error p method r named = grind (arith, get-put, eq_refl)

-- No request leaves the canary in breach: where automatic rollback is on, after a canary request
-- for a path the canary is rolled back and without weight, or its error rate and its 95th
-- percentile keep within the budget of the route for the requests of that route, and within the
-- larger of that and the general limits for all its requests, or there are too few samples yet.
pub slo_guard :
    (latency status : ℕ) (p method : String) (now : ℕ) (r : CanaryRouter)
    → truthy p ≡ true
    → r.auto_rollback_enabled ≡ true
    → let r' = record_metric true latency status (some p) method now r in
      IsRolledBack r' ⊎ Sound p method r'
slo_guard latency status p method now r named auto =
    rw (record_metric-evaluates latency status p method now r auto) (
      evaluate-guards p method now (record_canary latency (leb 500 status) (some p) method r) _
        named (record_canary-known latency (leb 500 status) p method r named))
