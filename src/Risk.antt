-- ===== src/Risk.antt =====
-- The risk score of gateway/risk_engine.py. A score is a natural number of hundredths of a point
-- (0 to 10000 for 0.0 to 100.0), and a factor such as `user_trust` one of ten-thousandths, so that
-- a factor times 100.0 is the same number. The composite is exact: it is held in 1/400 of a
-- hundredth, since it divides by 4 and by 100, and is rounded once, half to even, as `round` does
-- on exact values. Scores are not negative, so `max(0.0, x)` is x. Components are a record.
pub mod Bounds
pub mod Policy
pub mod Admission
mod Tests
use erp_security.Prelude.{
  ℕ, ◌+◌, ◌-◌, ◌*◌, min, max, String, concat, ◌==◌, starts_with, Bool, ◌&&◌, ◌||◌, not, leb, ltb,
  round_div, if◌then◌else◌, List, [], ◌∷◌,
}

pub data Decision : Type 0 where
  allow limit challenge block : Decision

pub record Components : Type 0 where
  pub threat : ℕ
  pub sensitivity : ℕ
  pub user_trust : ℕ
  pub context : ℕ
  pub waf_severity : ℕ
  pub rule_severity : ℕ
  pub anomaly_score : ℕ
  pub auth_anomaly : ℕ
  pub rate_severity : ℕ

pub record RiskScore : Type 0 where
  pub overall : ℕ
  pub components : Components
  pub reasons : List String
  pub decision : Decision

-- The arguments of `calculate_risk`.
pub record Signals : Type 0 where
  pub waf_severity : ℕ
  pub auth_anomaly : ℕ
  pub rate_severity : ℕ
  pub path : String
  pub user_trust : ℕ
  pub contextual_risk : ℕ
  pub rule_severity : ℕ
  pub anomaly_score : ℕ
  pub extra_reasons : List String

abbrev endpoint_sensitivity : List (String × ℕ)
endpoint_sensitivity =
    ("/health", 0)
    ∷ ("/api/auth/login", 9000)
    ∷ ("/api/orders", 8000)
    ∷ ("/api/users", 8500)
    ∷ ("/api/inventory", 5000)
    ∷ []

find_sensitivity : List (String × ℕ) → String → ℕ
find_sensitivity [] path = 5000
find_sensitivity ((prefix, sensitivity) ∷ rest) path =
    if path == prefix || starts_with path (concat prefix "/")
    then sensitivity
    else find_sensitivity rest path

pub get_endpoint_sensitivity : String → ℕ
unfolding find_sensitivity
get_endpoint_sensitivity path = find_sensitivity endpoint_sensitivity path

-- The composite of the threat dimensions, in quarters of a hundredth.
threat_score : Signals → ℕ
threat_score s = min 40000 (
    if leb 9000 s.waf_severity
    then max (4 * s.waf_severity) total
    else if leb 8000 s.rule_severity
    then max (4 * s.rule_severity) total
    else if leb 9000 s.auth_anomaly
    then max (4 * s.auth_anomaly) total
    else min 40000 (max total (2 * s.rule_severity)))
  where
    total : ℕ
    total = s.waf_severity + s.auth_anomaly + s.rate_severity + s.rule_severity

sensitivity_score : Signals → ℕ
sensitivity_score s = min 10000 (get_endpoint_sensitivity s.path)

user_trust_score : Signals → ℕ
user_trust_score s = min 10000 s.user_trust

context_score : Signals → ℕ
context_score s = min 10000 (max s.contextual_risk s.anomaly_score)

-- One point, in the unit of the composite.
abbrev pub point : ℕ
point = 40000

pub composite : Signals → ℕ
composite s =
    threat_score s * 40
    + sensitivity_score s * 4 * 25
    + (10000 - user_trust_score s) * 4 * 20
    + context_score s * 4 * 15

-- A path under /api/ other than the login.
abbrev pub is_protected : String → Bool
is_protected path = starts_with path "/api/" && not (path == "/api/auth/login")

-- The hard guarantees on top of the composite.
boundaries : Signals → ℕ → ℕ
boundaries s overall =
    if leb 8000 s.waf_severity || leb 8000 s.rule_severity
    then max overall (85 * point)
    else if leb 6000 s.rule_severity
    then max overall (65 * point)
    else if leb 8000 s.auth_anomaly && is_protected s.path
    then if ltb s.waf_severity 7500 && ltb s.rule_severity 7500
      then min (74 * point) (max overall (60 * point))
      else max overall (85 * point)
    else overall

decide_policy : ℕ → Decision
decide_policy overall =
    if leb overall 2000
    then allow
    else if leb overall 5000
    then limit
    else if leb overall 7500
    then challenge
    else block

settle : ℕ → ℕ
settle overall = min 10000 (round_div overall 400)

overall_score : Signals → ℕ
overall_score s = settle (boundaries s (composite s))

pub calculate_risk : Signals → RiskScore
calculate_risk s = record {
  overall = overall_score s;
  components = record {
    threat = round_div (threat_score s) 4;
    sensitivity = sensitivity_score s;
    user_trust = user_trust_score s;
    context = context_score s;
    waf_severity = s.waf_severity;
    rule_severity = s.rule_severity;
    anomaly_score = s.anomaly_score;
    auth_anomaly = s.auth_anomaly;
    rate_severity = s.rate_severity;
  };
  reasons = s.extra_reasons;
  decision = decide_policy (overall_score s);
}
