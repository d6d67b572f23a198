-- ===== src/CanaryRouter/Slo.antt =====
-- Class CanaryRouter of gateway/canary_router.py: the budgets of routes, and the check of every
-- canary request against them, which may roll the canary back.
use erp_security.Prelude.{
  ℕ, min, max, String, concat, starts_with, ◌==◌, Option, none, some, Bool, false, ◌&&◌, ltb, leb,
  eqb, if◌then◌else◌, List, [], ◌∷◌, get_or,
}
use erp_security.Prelude.Dict.{Dict, get, put}
use erp_security.Prelude.Text.{truthy?, member, before, rstrip, split}
use erp_security.CanaryRouter.Metrics.{Stats, traffic_metrics, record_request, get_stats}
use erp_security.CanaryRouter.Router.{
  CanaryRouter, Budget, Reason, route_error_rate, route_p95_latency, canary_error_rate,
  canary_p95_latency, rollback,
}

-- The first entry whose key is a path and a prefix of this one.
unfoldable pub find_budget : Dict Budget → String → Option Budget
find_budget [] path = none
find_budget ((route_prefix, b) ∷ rest) path =
    if starts_with route_prefix "/" && starts_with path route_prefix
    then some b
    else find_budget rest path

abbrev or_default : ℕ → ℕ → Option Budget → ℕ × ℕ
or_default p95 errors none = (p95, errors)
or_default p95 errors (some b) = (get_or b.max_p95_ms p95, get_or b.max_error_rate errors)

abbrev is_mutation : String → Bool
is_mutation method = member method ("POST" ∷ "PUT" ∷ "PATCH" ∷ "DELETE" ∷ [])

abbrev find_path_budget : Option String → Dict Budget → Option Budget
find_path_budget none slos = none
find_path_budget (some path) slos = find_budget slos path

unfoldable pub get_route_budget : Option String → String → CanaryRouter → ℕ × ℕ
unfolding find_budget
get_route_budget path method r = elim (find_path_budget (truthy? path) r.route_slos) [
  | some b ↦ or_default r.max_p95_latency_ms r.max_error_rate (some b)
  | none ↦
      (if is_mutation method
        then or_default 25000 100 (get r.route_slos "mutation_default")
        else or_default r.max_p95_latency_ms r.max_error_rate (get r.route_slos "read_default"))
]

-- `len(parts) > 3 and parts[2] == name`.
abbrev third_is : String → List String → Bool
third_is name (a ∷ b ∷ c ∷ d ∷ rest) = c == name
third_is name _ = false

-- `_get_route_key`; 63 is the question mark and 47 the slash.
unfoldable pub get_route_key : String → String → String
unfolding before rstrip split
get_route_key path method =
    let prefix = rstrip (λ c. eqb c 47) (before 63 path) in
    let parts = split 47 prefix in
    if third_is "orders" parts
    then concat method " /api/orders"
    else if third_is "users" parts
    then concat method " /api/users"
    else concat (concat method " ") prefix

-- The metrics of a request to the canary, in total and for its route.
unfoldable pub record_canary : ℕ → Bool → Option String → String → CanaryRouter → CanaryRouter
unfolding record_request traffic_metrics get_route_key
record_canary latency is_error path method r =
    let r' = record r { canary_metrics = record_request latency is_error r.canary_metrics } in
    elim (truthy? path) [
      | none ↦ r'
      | some p ↦
          (let key = get_route_key p method in
            let metric = get_or (get r.canary_route_metrics key) (traffic_metrics 500) in
            record r' {
              canary_route_metrics =
                  put r.canary_route_metrics key (record_request latency is_error metric);
            })
    ]

abbrev first_of : Option Reason → Option Reason → Option Reason
first_of (some reason) other = some reason
first_of none other = other

-- The breach of a route by its statistics, within its budget of latency and errors.
unfoldable pub route_breach : String → ℕ × ℕ → ℕ → Stats → Option Reason
route_breach key (budget_p95, budget_err) min_samples s =
    if leb (min min_samples 15) s.window_samples
    then (if ltb budget_err s.error_rate
        then some (route_error_rate key s.error_rate budget_err)
        else if ltb budget_p95 s.p95_latency_ms
        then some (route_p95_latency key s.p95_latency_ms budget_p95)
        else none)
    else none

unfoldable pub aggregate_breach : ℕ → ℕ → ℕ → Stats → Option Reason
aggregate_breach limit_p95 limit_err min_samples s =
    if ltb s.window_samples min_samples
    then none
    else if ltb limit_err s.error_rate
    then some (canary_error_rate s.error_rate limit_err)
    else if ltb limit_p95 s.p95_latency_ms
    then some (canary_p95_latency s.p95_latency_ms limit_p95)
    else none

-- The breach that `_evaluate_canary_slo` finds, if any.
unfoldable pub find_breach : Option String → String → CanaryRouter → Option Reason
unfolding get_stats get_route_key get_route_budget route_breach aggregate_breach
find_breach path method r = elim (truthy? path) [
  | none ↦
      aggregate_breach r.max_p95_latency_ms r.max_error_rate r.min_eval_samples
        (get_stats r.canary_metrics)
  | some p ↦
      (let key = get_route_key p method in
        let (budget_p95, budget_err) = get_route_budget (some p) method r in
        first_of
          (elim (get r.canary_route_metrics key) [
            | none ↦ none
            | some m ↦ route_breach key (budget_p95, budget_err) r.min_eval_samples (get_stats m)
          ])
          (aggregate_breach (max r.max_p95_latency_ms budget_p95) (max r.max_error_rate budget_err)
            r.min_eval_samples (get_stats r.canary_metrics)))
]

unfoldable pub evaluate_canary_slo : Option String → String → ℕ → CanaryRouter → CanaryRouter
unfolding find_breach rollback
evaluate_canary_slo path method now r = elim (find_breach path method r) [
  | none ↦ r
  | some reason ↦ rollback reason now r
]

unfoldable pub record_metric :
    Bool → ℕ → ℕ → Option String → String → ℕ → CanaryRouter → CanaryRouter
unfolding record_canary evaluate_canary_slo
record_metric is_canary latency status_code path method now r =
    let is_error = leb 500 status_code in
    let recorded = record_canary latency is_error path method r in
    if is_canary
    then (if r.auto_rollback_enabled
        then evaluate_canary_slo path method now recorded
        else recorded)
    else record r { stable_metrics = record_request latency is_error r.stable_metrics }
