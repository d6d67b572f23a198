-- ===== src/CanaryRouter/Sticky.antt =====
-- The routing of gateway/canary_router.py as the weight changes.
use erp_security.Prelude.{
  ℕ, ◌≤◌, String, Option, Bool, true, false, ◌≡◌, refl, arith, List, [], ◌∷◌, get_or,
}
use erp_security.Prelude.Dict.{Dict}
use erp_security.CanaryRouter.Router.{
  CanaryRouter, Reason, rollback, target_override, should_route_to_canary,
}
use erp_security.CanaryRouter.Slo.{record_metric}
use erp_security.CanaryRouter.Stages.{record_metric-cases}

-- A request that the router is told of, with its clock reading.
pub record Request : Type 0 where
  pub is_canary : Bool
  pub latency : ℕ
  pub status_code : ℕ
  pub path : Option String
  pub method : String
  pub now : ℕ

unfoldable pub observe_all : List Request → CanaryRouter → CanaryRouter
observe_all [] r = r
observe_all (q ∷ qs) r =
    observe_all qs (record_metric q.is_canary q.latency q.status_code q.path q.method q.now r)

observe_all-weight :
    (qs : List Request) (r : CanaryRouter) → r.weight ≡ 0 → (observe_all qs r).weight ≡ 0
unfolding observe_all
observe_all-weight [] r h = h
observe_all-weight (q ∷ qs) r h =
    observe_all-weight qs
      (record_metric q.is_canary q.latency q.status_code q.path q.method q.now r)
      (ground
        (arith, record_metric-cases q.is_canary q.latency q.status_code q.path q.method q.now r))

module _ (md5 : String → ℕ) where
  -- A rollout only grows: a request that goes to the canary still goes there when the weight is
  -- the same or higher, whoever sends it and whatever its headers and draw are.
  pub rollout_mono :
      (user_id client_ip : Option String) (headers : Dict String) (draw : ℕ) (r r' : CanaryRouter)
      → r.weight ≤ r'.weight
      → should_route_to_canary md5 user_id client_ip headers draw r ≡ true
      → should_route_to_canary md5 user_id client_ip headers draw r' ≡ true
  unfolding should_route_to_canary
  rollout_mono user_id client_ip headers draw r r' grows routed = ground arith

  weightless_stable :
      (user_id client_ip : Option String) (headers : Dict String) (draw : ℕ) (r : CanaryRouter)
      → r.weight ≡ 0
      → should_route_to_canary md5 user_id client_ip headers draw r
        ≡ get_or (target_override headers) false
  unfolding should_route_to_canary
  weightless_stable user_id client_ip headers draw r h = ground arith

  -- A rollback holds: after it, whatever requests are observed, only the override in its header
  -- sends a request to the canary.
  pub rollback_holds :
      (reason : Reason) (now : ℕ) (qs : List Request) (user_id client_ip : Option String)
      (headers : Dict String) (draw : ℕ) (r : CanaryRouter)
      → should_route_to_canary md5 user_id client_ip headers draw
          (observe_all qs (rollback reason now r))
        ≡ get_or (target_override headers) false
  unfolding rollback
  rollback_holds reason now qs user_id client_ip headers draw r =
      weightless_stable user_id client_ip headers draw (observe_all qs (rollback reason now r))
        (observe_all-weight qs (rollback reason now r) refl)
