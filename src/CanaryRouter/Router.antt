-- ===== src/CanaryRouter/Router.antt =====
-- Class CanaryRouter of gateway/canary_router.py: its state, its stages and its routing. The
-- first eight digits of the MD5 of an identifier, and the draw of `random.random()` cut to
-- ten-thousandths, are parameters.
use erp_security.Prelude.{
  ℕ, ◌%◌, min, max, String, Option, none, some, Bool, true, false, ltb, leb, eqb, if◌then◌else◌, [],
  ◌∷◌, get_or,
}
use erp_security.Prelude.Dict.{Dict, get}
use erp_security.Prelude.Text.{either, lower_equals}
use erp_security.CanaryRouter.Metrics.{TrafficMetrics, traffic_metrics, reset}

pub data CanaryStage : Type 0 where
  disabled canary_1 canary_10 canary_50 full_rollout rolled_back : CanaryStage

-- `STAGE_WEIGHT_MAP`.
abbrev pub stage_weight : CanaryStage → ℕ
stage_weight CanaryStage.disabled = 0
stage_weight CanaryStage.canary_1 = 100
stage_weight CanaryStage.canary_10 = 1000
stage_weight CanaryStage.canary_50 = 5000
stage_weight CanaryStage.full_rollout = 10000
stage_weight CanaryStage.rolled_back = 0

-- An entry of `route_slos`, either key of which may be absent.
pub record Budget : Type 0 where
  pub max_p95_ms : Option ℕ
  pub max_error_rate : Option ℕ

-- Why a rollback came: each automatic reason with the figure and the limit that its text shows.
pub data Reason : Type 0 where
  requested : String → Reason
  route_error_rate : String → ℕ → ℕ → Reason
  route_p95_latency : String → ℕ → ℕ → Reason
  canary_error_rate : ℕ → ℕ → Reason
  canary_p95_latency : ℕ → ℕ → Reason

pub record CanaryRouter : Type 0 where
  pub stage : CanaryStage
  pub weight : ℕ
  pub max_error_rate : ℕ
  pub max_p95_latency_ms : ℕ
  pub min_eval_samples : ℕ
  pub auto_rollback_enabled : Bool
  pub route_slos : Dict Budget
  pub stable_metrics : TrafficMetrics
  pub canary_metrics : TrafficMetrics
  pub canary_route_metrics : Dict TrafficMetrics
  pub last_rollback_reason : Option Reason
  pub last_rollback_timestamp : Option ℕ

abbrev budget : ℕ → ℕ → Budget
budget p95 errors = record { max_p95_ms = some p95; max_error_rate = some errors }

abbrev pub default_route_slos : Dict Budget
default_route_slos =
    ("read_default", budget 5000 200)
    ∷ ("mutation_default", budget 25000 100)
    ∷ ("/api/orders", budget 25000 100)
    ∷ ("/api/inventory/replenish", budget 25000 100)
    ∷ ("/api/inventory", budget 5000 200)
    ∷ ("/api/users", budget 5000 200)
    ∷ []

-- `CanaryRouter.__init__`.
unfoldable pub canary_router : CanaryStage → ℕ → ℕ → ℕ → Bool → Option (Dict Budget) → CanaryRouter
unfolding traffic_metrics
canary_router initial_stage max_error_rate max_p95 min_samples auto route_slos = record {
  stage = initial_stage;
  weight = stage_weight initial_stage;
  max_error_rate = max_error_rate;
  max_p95_latency_ms = max_p95;
  min_eval_samples = min_samples;
  auto_rollback_enabled = auto;
  route_slos = get_or route_slos default_route_slos;
  stable_metrics = traffic_metrics 500;
  canary_metrics = traffic_metrics 500;
  canary_route_metrics = [];
  last_rollback_reason = none;
  last_rollback_timestamp = none;
}

-- A weight that a caller asks for, which may be negative.
pub data Requested : Type 0 where
  pos : ℕ → Requested
  negsuc : ℕ → Requested

-- `max(0.0, min(1.0, weight))`.
unfoldable pub clamp : Requested → ℕ
clamp (pos w) = max 0 (min 10000 w)
clamp (negsuc n) = 0

unfoldable pub stage_for : ℕ → CanaryStage
stage_for w =
    if eqb w 0
    then CanaryStage.disabled
    else if leb w 100
    then CanaryStage.canary_1
    else if leb w 1000
    then CanaryStage.canary_10
    else if leb w 5000
    then CanaryStage.canary_50
    else CanaryStage.full_rollout

unfoldable pub set_weight : Requested → CanaryRouter → CanaryRouter
unfolding clamp stage_for
set_weight weight r = record r { weight = clamp weight; stage = stage_for (clamp weight) }

unfoldable pub promote : CanaryStage → CanaryRouter → CanaryRouter
unfolding reset
promote stage r = record r {
  stage = stage;
  weight = stage_weight stage;
  canary_metrics = reset r.canary_metrics;
  canary_route_metrics = [];
}

unfoldable pub rollback : Reason → ℕ → CanaryRouter → CanaryRouter
rollback reason now r = record r {
  stage = CanaryStage.rolled_back;
  weight = 0;
  last_rollback_reason = some reason;
  last_rollback_timestamp = some now;
}

-- The override in the header `X-Canary-Target`, if there is one.
unfoldable pub target_override : Dict String → Option Bool
target_override headers =
    let target = get_or (get headers "x-canary-target") "" in
    if lower_equals target "canary"
    then some true
    else if lower_equals target "stable"
    then some false
    else none

module _ (md5 : String → ℕ) where
  unfoldable pub should_route_to_canary :
      Option String → Option String → Dict String → ℕ → CanaryRouter → Bool
  unfolding target_override
  should_route_to_canary user_id client_ip headers draw r = elim (target_override headers) [
    | some target ↦ target
    | none ↦
        (if leb r.weight 0
          then false
          else if leb 10000 r.weight
          then true
          else elim (either user_id client_ip) [
            | some identifier ↦ ltb (md5 identifier % 10000) r.weight
            | none ↦ ltb draw r.weight
          ])
  ]
