-- ===== src/Risk/Tests.antt =====
-- Runs of the score of gateway/risk_engine.py.
use erp_security.Prelude.{◌≡◌, inl, refl, arith, []}
use erp_security.Risk.{Signals, challenge, block, calculate_risk}
use erp_security.Risk.Policy.{critical_blocks, auth_failure_decision, rule_weakens_block}

-- A request without trust in its user, with an expired token for a path of the program.
abbrev expired : Signals
expired = record {
  waf_severity = 7600;
  auth_anomaly = 8500;
  rate_severity = 0;
  path = "/api/orders";
  user_trust = 10000;
  contextual_risk = 0;
  rule_severity = 0;
  anomaly_score = 0;
  extra_reasons = [];
}

critical_blocks_example : (calculate_risk (record expired { waf_severity = 8500 })).decision ≡ block
critical_blocks_example =
    critical_blocks (record expired { waf_severity = 8500 }) (inl (omega arith))

auth_failure_decision_example : (calculate_risk expired).decision ≡ block
auth_failure_decision_example = auth_failure_decision expired (omega arith) refl (omega arith)

rule_weakens_block_example :
    ((calculate_risk expired).decision ≡ block)
    × ((calculate_risk (record expired { rule_severity = 6500 })).decision ≡ challenge)
rule_weakens_block_example =
    rule_weakens_block expired 6500 (omega arith) (omega arith) (omega arith) (omega arith)
      (omega arith) refl refl refl refl (omega arith) (omega arith) (omega arith)
