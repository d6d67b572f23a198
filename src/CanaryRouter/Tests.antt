-- ===== src/CanaryRouter/Tests.antt =====
-- Runs of the router of gateway/canary_router.py.
use erp_security.Prelude.{ℕ, String, none, some, true, false, ◌≡◌, ◌⊎◌, refl, List, [], ◌∷◌, get_or}
use erp_security.CanaryRouter.Router.{
  CanaryRouter, CanaryStage, Reason, pos, canary_router, rollback, target_override,
  should_route_to_canary,
}
use erp_security.CanaryRouter.Slo.{record_metric, get_route_key, get_route_budget}
use erp_security.CanaryRouter.Stages.{Operation, weigh, advance, observe}
use erp_security.CanaryRouter.Sticky.{Request, observe_all, rollback_holds}
use erp_security.CanaryRouter.Guard.{IsRolledBack, Sound, slo_guard}

abbrev at : CanaryStage → CanaryRouter
unfolding canary_router
at stage = canary_router stage 200 5000 15 true none

orders_key : get_route_key "/api/orders/101?full=1" "GET" ≡ "GET /api/orders"
unfolding get_route_key
orders_key = refl

orders_budget :
    get_route_budget (some "/api/orders/101") "GET" (at CanaryStage.canary_1) ≡ (25000, 100)
unfolding get_route_budget at
orders_budget = refl

abbrev operations : List Operation
operations =
    weigh (pos 300)
    ∷ observe true 900000 503 (some "/api/orders") "POST" 7
    ∷ advance CanaryStage.canary_50
    ∷ []

-- A digest that sends "eve" into bucket 42.
abbrev digest : String → ℕ
digest id = 90042

abbrev failing_request : Request
failing_request = record {
  is_canary = true;
  latency = 100;
  status_code = 500;
  path = some "/api/users";
  method = "GET";
  now = 8;
}

rollback_holds_example :
    should_route_to_canary digest (some "eve") none (("x-canary-target", "Canary") ∷ []) 0 (
      observe_all
        (failing_request ∷ [])
        (rollback (Reason.requested "test") 7 (at CanaryStage.canary_50)))
    ≡ get_or (target_override (("x-canary-target", "Canary") ∷ [])) false
rollback_holds_example =
    rollback_holds digest (Reason.requested "test") 7 (failing_request ∷ []) (some "eve") none
      (("x-canary-target", "Canary") ∷ []) 0 (at CanaryStage.canary_50)

slo_guard_example :
    let r' =
      record_metric true 900000 503 (some "/api/orders") "POST" 7 (at CanaryStage.canary_10) in
    IsRolledBack r' ⊎ Sound "/api/orders" "POST" r'
slo_guard_example =
    slo_guard 900000 503 "/api/orders" "POST" 7 (at CanaryStage.canary_10) refl (unfold at in refl)
