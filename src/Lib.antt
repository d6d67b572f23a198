-- ===== src/Lib.antt =====
-- The security gateway in front of an ERP system: what its components promise, modelled and proved.
--
-- A request meets the gateway (gateway/app.py), which asks its components in turn: is the address
-- or the principal under a mitigation, is the request a replay, is the caller authenticated and
-- allowed to reach the object, how often does it call, does the firewall object. The risk engine
-- weighs the answers into a decision. Events go to the agents, whose orchestrator proposes actions,
-- carries out the reversible ones, keeps the others for a human, and makes the mitigation engine
-- enforce them. Replicas share mitigations and nonces through a store backed by Redis.
--
-- Files, with the code that each models (function names are kept where they are names here):
--   Prelude       Boolean tests, dictionaries (Python's `dict`), texts, lists, sliding windows
--   Breaker       gateway/ha_dr.py, class CircuitBreaker
--   Risk          gateway/risk_engine.py, `calculate_risk`
--   StateStore    gateway/state_store.py: class InMemoryStateStore here, class
--                 DistributedStateStore in StateStore/Distributed; StateStore/Interface is what the
--                 mitigation engine relies on; StateStore/Memory and StateStore/Distributed/Offline
--                 are the stores that keep it: in memory, and distributed while Redis is away
--   Config        gateway/config.py, the lists of addresses
--   Agents        agents/base.py; agents/response_agent.py in Agents/Response and
--                 agents/orchestrator.py in Agents/Orchestrator
--   Mitigation    gateway/mitigation_engine.py: State, Apply (`apply_action`, `rollback_action`),
--                 Evaluate (`evaluate_request`) and Calls, their sequences
--   CanaryRouter  gateway/canary_router.py: Metrics, Router and Slo
--   RateLimiter   gateway/rate_limiter.py
--   CredentialDefense  gateway/credential_defense.py
--   ReplayGuard   gateway/replay_guard.py, over the store of StateStore/Distributed
--   Telemetry     gateway/telemetry/anti_poisoning.py
--   RouteAllowlist  gateway/route_allowlist.py: patterns, the catalogue, `validate_route`
--   RulesEngine   gateway/rules_engine.py: Checks are the stateless rules; Severity, Prices, Memory
--                 and Windows are proofs
--   Compliance    gateway/compliance.py, class TamperEvidentAuditChain: Sealing and Tampering are proofs
--   AnomalyDetector  gateway/anomaly_detection/deterministic_anomaly_detector.py
--   SecurityMetrics  gateway/security_metrics.py: its sums and bound are in SecurityMetrics/Traffic
--   SocFeedback   gateway/soc_feedback.py: what it counts is in SocFeedback/Counts
--   Gateway       gateway/app.py: state and requests here, the guards of
--                 `security_pipeline_middleware` in Gateway/Pipeline, the proxying in Gateway/Upstream
--   AuthEngine    gateway/auth_engine.py, `decode_and_verify` and `check_bola_idor`
--
-- A component is a record; a method is a function from the state to the state and its result; an
-- exception is a value of the result. A method that holds a lock is one step. Time enters as a
-- clock reading, in microseconds where the code takes seconds with a fraction. Scores, weights and
-- rates are numbers of a fixed unit that the file of the component states; rounding is of the exact
-- quotient, half to even. Code outside the repository is a parameter: the Redis client, `jwt.decode`,
-- `ipaddress`, HMAC, the digest and the random draw of the canary router; hypotheses on it stand in the
-- theorems. Every function is total by structural recursion, so nothing runs on fuel.
--
-- Not modelled: what Redis does over time to the entries of the mitigation engine (theorems on the
-- engine hold over stores with the laws of StateStore/Interface); methods with characters outside
-- ASCII; log lines, audit files and status reports; the management endpoints of gateway/app.py
-- and its connection pool; the firewall, which matches texts by regular expressions, the schemas and
-- the statistical and machine-learning scores, which enter the middleware as parameters; how baselines
-- are computed and the gates on them; compliance reports; the readiness probe; the agents that only read.
pub mod Prelude
pub mod Breaker
pub mod Risk
pub mod StateStore
pub mod Config
pub mod Agents
pub mod Mitigation
pub mod CanaryRouter
pub mod RateLimiter
pub mod CredentialDefense
pub mod AuthEngine
pub mod ReplayGuard
pub mod RouteAllowlist
pub mod RulesEngine
pub mod Gateway
pub mod SecurityMetrics
pub mod SocFeedback
pub mod AnomalyDetector
pub mod Compliance
pub mod Telemetry
