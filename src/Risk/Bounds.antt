-- ===== src/Risk/Bounds.antt =====
-- Bounds of the score of gateway/risk_engine.py, and how its stages grow.
use erp_security.Prelude.{ℕ, ◌*◌, ◌≤◌, arith, round_div}
use erp_security.Risk.{
  Signals, calculate_risk, threat_score, sensitivity_score, user_trust_score, context_score,
  composite, point, overall_score, settle,
}

-- The score and the dimensions that it is composed of lie between 0 and 100 points, whatever the
-- signals.
pub calculate_risk_bounds :
    (s : Signals)
    → let r = calculate_risk s in
      (r.overall ≤ 10000)
      × (r.components.threat ≤ 10000)
      × (r.components.sensitivity ≤ 10000)
      × (r.components.user_trust ≤ 10000)
      × (r.components.context ≤ 10000)
unfolding calculate_risk overall_score settle threat_score sensitivity_score user_trust_score
    context_score
calculate_risk_bounds s =
    (omega arith, unfold round_div in ground arith, omega arith, omega arith, omega arith)

-- The weights add up to one: the composite is at most 100 points.
pub composite-le : (s : Signals) → composite s ≤ 100 * point
unfolding composite threat_score sensitivity_score user_trust_score context_score
composite-le s = omega arith

-- Rounding is monotone.
pub round_div_mono : (a b : ℕ) → a ≤ b → round_div a 400 ≤ round_div b 400
unfolding round_div
round_div_mono a b h = ground arith

-- Rounding to hundredths reaches every bound that is a whole number of hundredths.
pub le-round_div : (k a : ℕ) → k * 400 ≤ a → k ≤ round_div a 400
unfolding round_div
le-round_div k a h = ground arith

pub round_div-le : (k a : ℕ) → a ≤ k * 400 → round_div a 400 ≤ k
unfolding round_div
round_div-le k a h = ground arith
