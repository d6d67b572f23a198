-- ===== src/Risk/Policy.antt =====
-- What the decisions of gateway/risk_engine.py promise.
use erp_security.Prelude.{
  ℕ, ◌*◌, ◌≤◌, ◌<◌, ◌≡◌, arith, ltb, Bool-cases, inl, inr, ◌⊎◌, true, if◌then◌else◌, dec_lt, ◌∙◌,
}
use erp_security.Risk.{
  Signals, Decision, allow, limit, challenge, block, calculate_risk, threat_score,
  sensitivity_score, user_trust_score, context_score, composite, point, overall_score,
  decide_policy, boundaries, is_protected, settle,
}
use erp_security.Risk.Bounds.{round_div_mono, le-round_div, round_div-le}

settle_block : (x : ℕ) → 85 * point ≤ x → decide_policy (settle x) ≡ block
unfolding decide_policy settle
settle_block x h = ground (arith, le-round_div 8500 x)

settle-challenge : (x : ℕ) → 60 * point ≤ x → x ≤ 74 * point → decide_policy (settle x) ≡ challenge
unfolding decide_policy settle
settle-challenge x l u = ground (arith, le-round_div 6000 x, round_div-le 7400 x)

boundaries_critical :
    (s : Signals) (x : ℕ)
    → (8000 ≤ s.waf_severity) ⊎ (8000 ≤ s.rule_severity)
    → 85 * point ≤ boundaries s x
unfolding boundaries
boundaries_critical s x h = ground arith

boundaries_serious : (s : Signals) (x : ℕ) → 6000 ≤ s.rule_severity → 65 * point ≤ boundaries s x
unfolding boundaries
boundaries_serious s x h = ground arith

-- A critical finding of the firewall or of the rules, 80 points or more, always blocks.
pub critical_blocks :
    (s : Signals)
    → (8000 ≤ s.waf_severity) ⊎ (8000 ≤ s.rule_severity)
    → (calculate_risk s).decision ≡ block
unfolding calculate_risk overall_score
critical_blocks s h = settle_block _ (boundaries_critical s (composite s) h)

-- An authentication failure of 80 points or more on a protected path, with no rule of 60 points
-- or more, is challenged where the firewall reports less than 75 points, and blocked otherwise.
pub auth_failure_decision :
    (s : Signals)
    → 8000 ≤ s.auth_anomaly
    → is_protected s.path ≡ true
    → s.rule_severity < 6000
    → (calculate_risk s).decision ≡ (if ltb s.waf_severity 7500 then challenge else block)
unfolding calculate_risk overall_score
auth_failure_decision s a p r = elim (Bool-cases (ltb s.waf_severity 7500)) [
  | inl mild ↦ rw mild (
      settle-challenge (boundaries s (composite s)) (unfold boundaries in ground arith)
        (unfold boundaries in ground arith))
  | inr severe ↦
      rw severe (settle_block (boundaries s (composite s)) (unfold boundaries in ground arith))
]

-- The order of the decisions.
abbrev pub rank : Decision → ℕ
rank allow = 0
rank limit = 1
rank challenge = 2
rank block = 3

decide_policy_mono : (a b : ℕ) → a ≤ b → rank (decide_policy a) ≤ rank (decide_policy b)
unfolding decide_policy
decide_policy_mono a b h = ground arith

boundaries_mono :
    (s : Signals) (waf x y : ℕ)
    → s.waf_severity ≤ waf
    → waf < 8000
    → x ≤ y
    → boundaries s x ≤ boundaries (record s { waf_severity = waf }) y
unfolding boundaries
boundaries_mono s waf x y h l le = ground arith

composite_mono :
    (s : Signals) (waf : ℕ)
    → s.waf_severity ≤ waf
    → waf < 8000
    → composite s ≤ composite (record s { waf_severity = waf })
unfolding composite sensitivity_score user_trust_score context_score
composite_mono s waf h l = omega (arith, threat)
  where
    threat : threat_score s ≤ threat_score (record s { waf_severity = waf })
    threat = unfold threat_score in ground arith

-- More severe findings of the firewall never weaken the decision, all else equal.
pub waf_mono :
    (s : Signals) (waf : ℕ)
    → s.waf_severity ≤ waf
    → rank (calculate_risk s).decision
      ≤ rank (calculate_risk (record s { waf_severity = waf })).decision
waf_mono s waf h = elim (dec_lt waf 8000) [
  | yes below ↦
      unfold calculate_risk overall_score settle in
      decide_policy_mono _ _ (
        omega (
          arith,
          round_div_mono _ _ (boundaries_mono s waf _ _ h below (composite_mono s waf h below)),
        ))
  | no critical ↦
      rw (critical_blocks (record s { waf_severity = waf }) (inl (omega arith))) (rank-le _)
]
  where
    rank-le : (d : Decision) → rank d ≤ 3
    rank-le d = ground arith

mild_composite :
    (s : Signals)
    → s.waf_severity < 8000
    → s.auth_anomaly < 9000
    → s.rate_severity ≤ 10000
    → s.rule_severity < 8000
    → s.user_trust ≡ 10000
    → s.contextual_risk ≡ 0
    → s.anomaly_score ≡ 0
    → composite s ≤ 60 * point
unfolding composite sensitivity_score user_trust_score context_score
mild_composite s w a ra r tr c an = omega (arith, threat)
  where
    threat : threat_score s ≤ 35000
    threat = unfold threat_score in ground arith

boundaries_rule :
    (s : Signals) (x : ℕ)
    → s.waf_severity < 8000
    → 6000 ≤ s.rule_severity
    → s.rule_severity < 8000
    → x ≤ 60 * point
    → boundaries s x ≡ 65 * point
unfolding boundaries
boundaries_rule s x w r r' h = ground arith

-- A rule that grows from below 60 points to between 60 and 80, 80 excluded, weakens a block to a
-- challenge, where the authentication failed with 80 to 90 points, 90 excluded, on a protected path,
-- the firewall reports 75 to 80, 80 excluded, and, whatever the rate, nothing else is held against a
-- fully trusted user.
pub rule_weakens_block :
    (s : Signals) (rule : ℕ)
    → 7500 ≤ s.waf_severity
    → s.waf_severity < 8000
    → 8000 ≤ s.auth_anomaly
    → s.auth_anomaly < 9000
    → s.rate_severity ≤ 10000
    → is_protected s.path ≡ true
    → s.user_trust ≡ 10000
    → s.contextual_risk ≡ 0
    → s.anomaly_score ≡ 0
    → s.rule_severity < 6000
    → 6000 ≤ rule
    → rule < 8000
    → ((calculate_risk s).decision ≡ block)
      × ((calculate_risk (record s { rule_severity = rule })).decision ≡ challenge)
rule_weakens_block s rule w1 w2 a1 a2 ra p tr c an r1 r2 r3 =
    let s' = record s { rule_severity = rule } in
    (
      auth_failure_decision s a1 p r1 ∙ ground arith,
      unfold calculate_risk overall_score in
          rw (boundaries_rule s' (composite s') w2 r2 r3 (mild_composite s' w2 a2 ra r3 tr c an))
            (settle-challenge (65 * point) (omega arith) (omega arith)),
    )
