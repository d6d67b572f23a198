-- ===== src/Gateway.antt =====
-- The middleware of gateway/app.py (`security_pipeline_middleware` and `get_verified_client_ip`) as
-- the composition of the components: the state of the gateway, what it reads of a request, and what
-- it answers. The phases are in Pipeline, the proxying in Upstream.
--
-- Parameters are the parts outside the repository, and with them the parts that only deliver a
-- number or a verdict here: the firewall, the schemas, the anomaly detector, the model, and the
-- sink of audit events, which may make the mitigation engine act. A body enters with what
-- `json.loads` makes of it. Texts of answers, response headers but the decision, and reasons are left out.
pub mod Upstream
pub mod Pipeline
pub mod Forwarding
pub mod Unverified
pub mod Admission
pub mod Refusals
pub mod Outage
mod Tests
use erp_security.Prelude.{
  ℕ, String, ◌==◌, starts_with, Option, none, some, Bool, true, false, ◌||◌, if◌then◌else◌, List,
  [], ◌∷◌, get_or,
}
use erp_security.Prelude.Dict.{Dict}
use erp_security.Prelude.Text.{member, truthy, truthy?, split, strip}
use erp_security.Prelude.Json.{Json}
use erp_security.StateStore.Interface.{SharedStore}
use erp_security.StateStore.Distributed.{Redis}
use erp_security.Config.{IpAddress, is_trusted_proxy}
use erp_security.Mitigation.State.{Shared, MitigationEngine}
use erp_security.RateLimiter.{RateClient, RateLimiter}
use erp_security.CredentialDefense.{CredentialDefense}
use erp_security.ReplayGuard.{ReplayGuard, Request as Freshness}
use erp_security.AuthEngine.{Decoded}
use erp_security.RouteAllowlist.{RouteRule}
use erp_security.RulesEngine.{RulesEngine, ConfigFile}
use erp_security.Breaker.{CircuitBreaker}
use erp_security.CanaryRouter.Router.{CanaryRouter}
use erp_security.Risk.{Decision, RiskScore}

-- What the middleware reads of a request.
pub record Request : Type 0 where
  pub method : String
  pub path : String
  pub url : String
  pub client_host : Option String
  pub forwarded_for : Option String
  pub authorization : String
  pub content_length : Option String
  pub body_text : String
  pub json : Option Json
  pub freshness : Freshness
  pub headers : Dict String

-- The calls of a clock, in the order of the code.
pub data Moment : Type 0 where
  at_mitigation at_credentials at_replay at_principal at_rate at_breaker at_success : Moment
  at_metric at_login_failure at_failure at_trip at_failure_metric : Moment
  at_rule : String → Moment

-- An attempt to reach the upstream: its status, or an exception.
pub data Attempt : Type 0 where
  responded : ℕ → Attempt
  event_loop_closed other_exception : Attempt

-- What the world adds to a request: clock readings, the latency of the proxying, the draw of
-- `random.random()`, the configuration file of the rules, and the two attempts.
pub record Surroundings : Type 0 where
  pub clock : Moment → ℕ
  pub latency : ℕ
  pub draw : ℕ
  pub rules_file : Option ConfigFile
  pub first_attempt : Attempt
  pub second_attempt : Attempt

-- An event that is given to the audit sink.
pub record AuditEvent : Type 0 where
  pub decision : Decision
  pub risk : RiskScore
  pub client_ip : String
  pub principal : String
  pub fired_rules : List String
  pub ml_score : ℕ

pub record Parts : Type 1 where
  pub store : SharedStore Shared
  pub Value : Type 0
  pub redis : Redis Value
  pub rate_client : RateClient
  pub ip_library : IpAddress
  pub trusted_proxies : List String
  pub max_body_bytes : ℕ
  pub jwt_decode : String → Decoded
  pub sha256 : String → String
  pub dumps : Json → String
  pub md5 : String → ℕ
  pub inspect_content : String → Bool × ℕ
  pub inspect_payload : Json → Bool × ℕ
  pub valid_login : Json → Bool
  pub valid_order : Json → Bool
  pub anomaly_score : String → Request → ℕ
  pub ml_score : String → Request → ℕ
  pub emit : AuditEvent → MitigationEngine store → MitigationEngine store

pub record Gateway (parts : Parts) : Type 0 where
  pub mitigation_engine : MitigationEngine parts.store
  pub credential_defense : CredentialDefense
  pub routes : List RouteRule
  pub replay_guard : ReplayGuard parts.redis
  pub rules_engine : RulesEngine
  pub rate_limiter : RateLimiter parts.rate_client
  pub circuit_breaker : CircuitBreaker
  pub canary_router : CanaryRouter

-- A response: its status, and its "X-Decision" where it has one; or an exception that leaves the
-- middleware.
pub data Answer : Type 0 where
  response : ℕ → Option Decision → Answer
  escaped : Answer

-- What is sent upstream: whether on the canary route, and the decision that it carries.
pub record Forwarded : Type 0 where
  pub is_canary : Bool
  pub decision : Decision

pub record Result : Type 0 where
  pub answer : Answer
  pub forwarded : List Forwarded

-- An answer without anything sent upstream.
abbrev pub refuse : ℕ → Option Decision → Result
refuse status decision = record { answer = response status decision; forwarded = [] }

-- The hops of a header that are not blank.
unfoldable pub hops : List String → List String
unfolding strip
hops [] = []
hops (h ∷ hs) = let rest = hops hs in if truthy (strip h) then strip h ∷ rest else rest

abbrev pub first_or : String → List String → String
first_or d [] = d
first_or d (h ∷ hs) = h

unfoldable pub get_verified_client_ip : IpAddress → List String → Request → String
unfolding hops split
get_verified_client_ip ip trusted_proxies q =
    let peer_ip = get_or q.client_host "127.0.0.1" in
    if is_trusted_proxy ip trusted_proxies peer_ip
    then elim (truthy? q.forwarded_for) [
      | none ↦ peer_ip
      | some xff ↦ first_or peer_ip (hops (split b',' xff))
    ]
    else peer_ip

abbrev pub starts_with_any : String → List String → Bool
starts_with_any path [] = false
starts_with_any path (prefix ∷ rest) = starts_with path prefix || starts_with_any path rest

abbrev pub bypassing_paths : List String
bypassing_paths =
    "/docs" ∷ "/openapi.json" ∷ "/redoc" ∷ "/health" ∷ "/health/live" ∷ "/health/ready"
    ∷ "/api/ml/health" ∷ "/api/ml/rollback" ∷ "/api/ml/recover" ∷ "/api/mitigations/status"
    ∷ "/api/ml/retrain" ∷ "/api/metrics/security" ∷ "/api/ha/status" ∷ "/api/compliance/report"
    ∷ "/api/compliance/verify-chain" ∷ "/api/canary/status" ∷ "/api/canary/promote"
    ∷ "/api/canary/rollback" ∷ []

abbrev pub bypassing_prefixes : List String
bypassing_prefixes =
    "/api/agents" ∷ "/api/soc" ∷ "/api/metrics" ∷ "/api/compliance" ∷ "/api/ha" ∷ "/api/canary" ∷ []

-- The paths that the gateway serves itself, before any check.
unfoldable pub bypasses : String → Bool
bypasses path = member path bypassing_paths || starts_with_any path bypassing_prefixes
