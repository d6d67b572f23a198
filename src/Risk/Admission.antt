-- ===== src/Risk/Admission.antt =====
-- What the decisions of gateway/risk_engine.py let pass.
use erp_security.Prelude.{ℕ, ◌*◌, ◌≤◌, ◌≡◌, arith, ◌⊎◌}
use erp_security.Risk.{
  Signals, allow, limit, calculate_risk, threat_score, sensitivity_score, user_trust_score,
  context_score, composite, point, overall_score, decide_policy, boundaries, settle,
}
use erp_security.Risk.Bounds.{round_div-le}

-- Nothing but an anomaly or a context is held against a request, and its user is trusted by half.
pub record IsBenign (s : Signals) : Type 0 where
  pub no_attack : s.waf_severity ≡ 0
  pub no_auth_anomaly : s.auth_anomaly ≡ 0
  pub no_rate : s.rate_severity ≡ 0
  pub no_rule : s.rule_severity ≡ 0
  pub trusted : 5000 ≤ s.user_trust

benign-composite : (s : Signals) → IsBenign s → composite s ≤ 50 * point
unfolding composite sensitivity_score user_trust_score context_score threat_score
benign-composite s h =
    ground (arith, h.no_attack, h.no_auth_anomaly, h.no_rate, h.no_rule, h.trusted)

benign-boundaries : (s : Signals) → IsBenign s → boundaries s (composite s) ≤ 50 * point
unfolding boundaries
benign-boundaries s h =
    ground (arith, benign-composite s h, h.no_attack, h.no_auth_anomaly, h.no_rule)

settle-admits :
    (x : ℕ)
    → x ≤ 50 * point
    → (decide_policy (settle x) ≡ allow) ⊎ (decide_policy (settle x) ≡ limit)
unfolding decide_policy settle
settle-admits x h = ground (arith, round_div-le 5000 x)

-- No false alarm: a request without any finding of the firewall, the authentication, the rate
-- limiter or the rules, of a user who is trusted by half or more, is neither challenged nor
-- blocked, whatever its path and however high its anomaly and its contextual risk.
pub benign_admitted :
    (s : Signals)
    → IsBenign s
    → ((calculate_risk s).decision ≡ allow) ⊎ ((calculate_risk s).decision ≡ limit)
unfolding calculate_risk overall_score
benign_admitted s h = settle-admits (boundaries s (composite s)) (benign-boundaries s h)
