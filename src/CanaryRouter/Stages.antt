-- ===== src/CanaryRouter/Stages.antt =====
-- Stage and weight of the router of gateway/canary_router.py, through any operations.
use erp_security.Prelude.{ℕ, ◌≤◌, String, Option, Bool, eqb, ◌≡◌, ◌⊎◌, refl, arith, List, [], ◌∷◌}
use erp_security.CanaryRouter.Router.{
  CanaryRouter, CanaryStage, Reason, Requested, pos, negsuc, stage_weight, set_weight, promote,
  rollback, clamp, stage_for,
}
use erp_security.CanaryRouter.Slo.{record_metric, record_canary, evaluate_canary_slo}

pub data Operation : Type 0 where
  weigh : Requested → Operation
  advance : CanaryStage → Operation
  retreat : String → ℕ → Operation
  observe : Bool → ℕ → ℕ → Option String → String → ℕ → Operation

pub perform : Operation → CanaryRouter → CanaryRouter
perform (weigh w) r = set_weight w r
perform (advance stage) r = promote stage r
perform (retreat why now) r = rollback (Reason.requested why) now r
perform (observe canary latency status path method now) r =
    record_metric canary latency status path method now r

unfoldable pub perform_all : List Operation → CanaryRouter → CanaryRouter
perform_all [] r = r
perform_all (o ∷ os) r = perform_all os (perform o r)

-- The weight is at most that of the stage, and is zero where the stage is without traffic only.
abbrev pub IsConsistent : CanaryRouter → Type 0
IsConsistent r = (r.weight ≤ stage_weight r.stage) × (eqb r.weight 0 ≡ eqb (stage_weight r.stage) 0)

clamp_le : (w : Requested) → clamp w ≤ 10000
unfolding clamp
clamp_le (pos w) = omega arith
clamp_le (negsuc n) = omega arith

stage_for-covers :
    (w : ℕ)
    → w ≤ 10000
    → (w ≤ stage_weight (stage_for w)) × (eqb w 0 ≡ eqb (stage_weight (stage_for w)) 0)
unfolding stage_for
stage_for-covers w h = ground arith

-- A request leaves stage and weight alone, or takes all the weight away.
pub record_metric-cases :
    (canary : Bool) (latency status : ℕ) (path : Option String) (method : String) (now : ℕ)
    (r : CanaryRouter)
    → let r' = record_metric canary latency status path method now r in
      ((r'.stage ≡ r.stage) × (r'.weight ≡ r.weight))
      ⊎ ((r'.stage ≡ CanaryStage.rolled_back) × (r'.weight ≡ 0))
unfolding record_metric evaluate_canary_slo record_canary rollback
record_metric-cases canary latency status path method now r = ground arith

perform-IsConsistent :
    (o : Operation) (r : CanaryRouter) → IsConsistent r → IsConsistent (perform o r)
unfolding perform set_weight promote rollback
perform-IsConsistent (weigh w) r h = stage_for-covers (clamp w) (clamp_le w)
perform-IsConsistent (advance stage) r h = (omega arith, refl)
perform-IsConsistent (retreat why now) r h = (omega arith, refl)
perform-IsConsistent (observe canary latency status path method now) r h =
    ground (arith, record_metric-cases canary latency status path method now r)

-- Stage and weight never part: whatever is asked for, promoted, rolled back or observed, the
-- weight stays within that of the stage shown, and there is canary traffic only in a stage that
-- has some.
pub perform_all-IsConsistent :
    (os : List Operation) (r : CanaryRouter) → IsConsistent r → IsConsistent (perform_all os r)
unfolding perform_all
perform_all-IsConsistent [] r h = h
perform_all-IsConsistent (o ∷ os) r h =
    perform_all-IsConsistent os (perform o r) (perform-IsConsistent o r h)
