-- ===== src/Gateway/Pipeline.antt =====
-- The phases of `security_pipeline_middleware` of gateway/app.py, each with the phases after it.
use erp_security.Prelude.{
  ℕ, ◌*◌, max, String, ◌==◌, Option, none, some, Bool, true, false, not, ◌&&◌, ◌||◌, ltb,
  if◌then◌else◌, [], ◌∷◌, get_or, is_some,
}
use erp_security.Prelude.Text.{member, truthy, truthy?, either}
use erp_security.Prelude.Json.{
  Json, object, array, no_fields, is_true, above, as_object, as_text, lookup,
}
use erp_security.Mitigation.Evaluate.{evaluate_request}
use erp_security.CredentialDefense.{check_status}
use erp_security.ReplayGuard.{validate_request, Request as Freshness}
use erp_security.AuthEngine.{
  Claims, Verification, decode_and_verify, check_bola_idor, is_authorized, is_internal_staff,
  writes_order, sub_of, str,
}
use erp_security.RouteAllowlist.{RouteRule, validate_route}
use erp_security.RulesEngine.Checks.{parse_int, Request as RuleRequest}
use erp_security.RulesEngine.{RulesEngine, evaluate}
use erp_security.RateLimiter.{RateLimiter, check_rate}
use erp_security.Risk.{Signals, Decision, limit, challenge, block, allow, calculate_risk}
use erp_security.Gateway.{
  Request, Surroundings, Parts, Gateway, escaped, Result, refuse, AuditEvent, at_mitigation,
  at_credentials, at_replay, at_principal, at_rate, at_rule, bypasses, get_verified_client_ip,
  starts_with_any,
}
use erp_security.Gateway.Upstream.{forward}

-- The arguments of `calculate_risk` with the defaults of the others.
abbrev pub signals : ℕ → ℕ → ℕ → String → Signals
signals waf_severity auth_anomaly rate_severity path = record {
  waf_severity = waf_severity;
  auth_anomaly = auth_anomaly;
  rate_severity = rate_severity;
  path = path;
  user_trust = 10000;
  contextual_risk = 0;
  rule_severity = 0;
  anomaly_score = 0;
  extra_reasons = [];
}

-- Who a request comes from, once it is past authentication.
pub record Caller : Type 0 where
  pub claims : Option Claims
  pub principal : String
  pub auth_anomaly : ℕ
  pub user_trust : ℕ

abbrev pub verified_caller : Claims → Verification → Caller
verified_caller c v = record {
  claims = some c;
  principal = sub_of c;
  auth_anomaly = v.auth_anomaly_score;
  user_trust = v.user_trust_score;
}

-- The body that the later checks read: an object or a list, else an empty object.
unfoldable pub payload_of : Option Json → Json
payload_of (some (object d)) = object d
payload_of (some (array vs)) = array vs
payload_of _ = object no_fields

-- The customer of a body, where it is a text, and whether there is one that is no text.
abbrev pub customer_id : Json → Option Json
customer_id payload = elim (as_object payload) [ none ↦ none | some d ↦ lookup d "customer_id" ]

abbrev customer_text : Option Json → Option String
customer_text none = none
customer_text (some v) = as_text v

abbrev odd_customer : Option Json → Bool
odd_customer none = false
odd_customer (some v) = is_true v && not (is_some (as_text v))

-- `check_bola_idor` on a body: a customer that is no text is none of the caller's own. `none` is
-- the exception that roles which cannot be read raise, or reading a list like an object.
unfoldable pub permitted : Request → Claims → Json → Option Bool
permitted q c payload =
    elim (if writes_order q.path q.method then is_internal_staff c else some true) [
      | none ↦ none
      | some staff ↦
          if not staff && is_true payload && not (is_some (as_object payload))
          then none
          else if not staff && odd_customer (customer_id payload)
          then some false
          else elim (check_bola_idor q.path (some c) q.method
              (customer_text (customer_id payload))) [
                | none ↦ none
                | some verdict ↦ some (is_authorized verdict)
              ]
    ]

unfoldable pub freshness_exempt : String → Bool
freshness_exempt path =
    member path ("/api/auth/login" ∷ "/health" ∷ "/health/live" ∷ "/health/ready" ∷ [])
    || starts_with_any path ("/api/compliance" ∷ "/api/canary" ∷ "/api/agents" ∷ "/api/soc" ∷ [])

-- `nonce or idempotency_key or timestamp_str`.
abbrev pub has_freshness : Freshness → Bool
has_freshness f = is_some (either f.nonce f.idempotency_key) || is_some f.timestamp

abbrev pub mutating : String → Bool
mutating method = member method ("POST" ∷ "PUT" ∷ "DELETE" ∷ "PATCH" ∷ [])

-- Of an attack, its score in hundredths.
abbrev pub attack_score : Bool × ℕ → ℕ
attack_score (attack, score) = if attack then 100 * score else 0

module _ (parts : Parts) (q : Request) (s : Surroundings) where
  unfoldable pub emit : AuditEvent → Gateway parts → Gateway parts
  emit event g = record g { mitigation_engine = parts.emit event g.mitigation_engine }

  -- An answer before the rules are asked, with the audit event of its score.
  unfoldable pub refuse_audited :
      ℕ → Decision → Signals → String → Gateway parts → Gateway parts × Result
  unfolding emit
  refuse_audited status decision x client_ip g = (
    emit
        (record {
          decision = decision;
          risk = calculate_risk x;
          client_ip = client_ip;
          principal = "";
          fired_rules = [];
          ml_score = 0;
        })
        g,
    refuse status (some decision),
  )

  -- The decision of the risk engine, enforced.
  unfoldable pub enforce : String → String → ℕ → Decision → Gateway parts → Gateway parts × Result
  unfolding forward
  enforce client_ip principal count block g = (g, refuse 403 (some block))
  enforce client_ip principal count challenge g = (g, refuse 401 (some challenge))
  enforce client_ip principal count limit g =
      if ltb 1000 count then (g, refuse 429 none) else forward parts q s client_ip principal limit g
  enforce client_ip principal count allow g =
      if ltb 1000 count then (g, refuse 429 none) else forward parts q s client_ip principal allow g

  -- The name that the statistics know a caller by.
  abbrev pub user_id_of : String → Caller → String
  user_id_of client_ip caller = get_or (truthy? (some caller.principal)) client_ip

  -- `rule_request_data`.
  abbrev pub rule_request : String → Bool → Caller → RuleRequest
  rule_request client_ip exempt caller = record {
    method = q.method;
    path = q.path;
    body = payload_of q.json;
    client_ip = some client_ip;
    user_id = some (user_id_of client_ip caller);
    current_role = elim caller.claims [ none ↦ some "" | some c ↦ some (str "" c.role) ];
    is_authenticated = not exempt && truthy caller.principal;
  }

  -- The rules on a request, and the count of its address.
  abbrev pub fire : String → Bool → Caller → Gateway parts → RulesEngine × ℕ
  fire client_ip exempt caller g =
      evaluate parts.sha256 parts.dumps s.rules_file (λ id. s.clock (at_rule id))
        (rule_request client_ip exempt caller) g.rules_engine

  abbrev pub rate : String → Gateway parts → RateLimiter parts.rate_client × ℕ × ℕ
  rate client_ip g = check_rate parts.rate_client (s.clock at_rate) client_ip g.rate_limiter

  -- The arguments of `calculate_risk` after all checks.
  abbrev pub weighed : String → Bool → Caller → ℕ → Gateway parts → Signals
  weighed client_ip exempt caller waf_severity g = record {
    waf_severity = waf_severity;
    auth_anomaly = caller.auth_anomaly;
    rate_severity = 100 * (rate client_ip g).2;
    path = q.path;
    user_trust = caller.user_trust;
    contextual_risk = 0;
    rule_severity = 100 * (fire client_ip exempt caller g).1;
    anomaly_score = parts.anomaly_score (user_id_of client_ip caller) q;
    extra_reasons = [];
  }

  -- Rules, anomaly, rate and risk.
  unfoldable pub weigh : String → Bool → Caller → ℕ → Gateway parts → Gateway parts × Result
  unfolding emit enforce
  weigh client_ip exempt caller waf_severity g =
      let (rules, rule_severity) = fire client_ip exempt caller g in
      let (rates, count, rate_severity) = rate client_ip g in
      let risk = calculate_risk (weighed client_ip exempt caller waf_severity g) in
      enforce client_ip caller.principal count risk.decision (
        emit
          (record {
            decision = risk.decision;
            risk = risk;
            client_ip = client_ip;
            principal = caller.principal;
            fired_rules = rules.fired_rules;
            ml_score = parts.ml_score (user_id_of client_ip caller) q;
          })
          (record g { rules_engine = rules; rate_limiter = rates }))

  -- Access to the object: what is foreign counts like an attack.
  unfoldable pub check_object :
      String → Claims → Caller → ℕ → Gateway parts → Gateway parts × Result
  unfolding permitted weigh payload_of
  check_object client_ip c caller waf_severity g = elim (permitted q c (payload_of q.json)) [
    | none ↦ (g, record { answer = escaped; forwarded = [] })
    | some true ↦ weigh client_ip false caller waf_severity g
    | some false ↦ weigh client_ip false caller (max waf_severity 9500) g
  ]

  -- The mitigations of the principal.
  unfoldable pub check_principal :
      String → Claims → Caller → ℕ → Gateway parts → Gateway parts × Result
  unfolding check_object
  check_principal client_ip c caller waf_severity g =
      let (m, mitigations) =
        evaluate_request parts.store (s.clock at_principal) client_ip (some caller.principal)
          (some q.authorization) g.mitigation_engine in
      let g' = record g { mitigation_engine = mitigations } in
      if m.is_mitigated
      then (g', refuse m.http_status (some block))
      else check_object client_ip c caller waf_severity g'

  -- The caller of a path that needs no token.
  abbrev pub anonymous : Caller
  anonymous = record { claims = none; principal = ""; auth_anomaly = 0; user_trust = 8500 }

  unfoldable pub auth_exempt : RouteRule → Bool
  auth_exempt rule = not rule.auth_required || member q.path ("/health" ∷ "/api/auth/login" ∷ [])

  unfoldable pub authenticate : String → RouteRule → ℕ → Gateway parts → Gateway parts × Result
  unfolding auth_exempt weigh check_principal refuse_audited
  authenticate client_ip rule waf_severity g =
      let v = decode_and_verify parts.jwt_decode q.authorization in
      if auth_exempt rule
      then weigh client_ip true anonymous waf_severity g
      else if not v.is_valid
      then refuse_audited 401 challenge (signals waf_severity v.auth_anomaly_score 0 q.path)
          client_ip g
      else elim v.claims [
        | none ↦ (g, record { answer = escaped; forwarded = [] })
        | some c ↦ check_principal client_ip c (verified_caller c v) waf_severity g
      ]

  unfoldable pub check_replay : String → RouteRule → ℕ → Gateway parts → Gateway parts × Result
  unfolding authenticate freshness_exempt refuse_audited
  check_replay client_ip rule waf_severity g =
      if mutating q.method
      then (if not (freshness_exempt q.path) && not (has_freshness q.freshness)
          then (g, refuse 400 (some block))
          else let (guard, verdict) =
              validate_request parts.redis (s.clock at_replay) q.freshness g.replay_guard in
            let g' = record g { replay_guard = guard } in
            if verdict.is_replay
            then refuse_audited 403 block
                (signals (max waf_severity (100 * verdict.threat_score)) 0 5000 q.path) client_ip g'
            else authenticate client_ip rule waf_severity g')
      else authenticate client_ip rule waf_severity g

  -- The schema of a body: a status that refuses it, if there is one.
  unfoldable pub schema_error : Option ℕ
  schema_error =
      if member q.method ("POST" ∷ "PUT" ∷ []) && truthy q.body_text
      then elim q.json [
        | none ↦ some 400
        | some v ↦
            if q.path == "/api/auth/login" && not (parts.valid_login v)
              || (q.path == "/api/orders" && not (parts.valid_order v))
            then some 422
            else none
      ]
      else none

  unfoldable pub check_route : String → ℕ → Gateway parts → Gateway parts × Result
  unfolding check_replay schema_error
  check_route client_ip waf_severity g =
      let v = validate_route q.path q.method g.routes in
      elim v.matching_rule [
        | none ↦ (g, refuse 404 (some block))
        | some rule ↦
            if not v.is_method_allowed then (g, refuse 405 (some block)) else elim schema_error [
              | some status ↦ (g, refuse status (some block))
              | none ↦ check_replay client_ip rule waf_severity g
            ]
      ]

  -- The attacks that the firewall finds in the address, the text and the value of the body.
  abbrev path_attack : Bool × ℕ
  path_attack = parts.inspect_content q.url

  abbrev body_attack : Bool × ℕ
  body_attack = if truthy q.body_text then parts.inspect_content q.body_text else (false, 0)

  abbrev payload_attack : Bool × ℕ
  payload_attack = elim q.json [
    | none ↦ (false, 0)
    | some v ↦ if is_true v then parts.inspect_payload v else (false, 0)
  ]

  unfoldable pub is_attack : Bool
  is_attack = path_attack.0 || body_attack.0 || payload_attack.0

  unfoldable pub attack_severity : ℕ → ℕ
  attack_severity threat =
      max (max (max threat (attack_score path_attack)) (attack_score body_attack))
        (attack_score payload_attack)

  unfoldable pub inspect : String → ℕ → Gateway parts → Gateway parts × Result
  unfolding is_attack attack_severity check_route refuse_audited
  inspect client_ip threat g =
      if is_attack
      then refuse_audited 403 block (signals (attack_severity threat) 0 0 q.path) client_ip g
      else check_route client_ip threat g

  unfoldable pub check_credentials : String → Gateway parts → Gateway parts × Result
  unfolding inspect refuse_audited
  check_credentials client_ip g =
      let (defence, is_brute_force, threat, reasons) =
        check_status (s.clock at_credentials) client_ip "" g.credential_defense in
      let g' = record g { credential_defense = defence } in
      if is_brute_force
      then refuse_audited 403 block (signals (100 * threat) 0 8000 q.path) client_ip g'
      else inspect client_ip (100 * threat) g'

  -- Whether the header with the length of the body names more than the gateway takes.
  unfoldable pub oversized : Bool
  unfolding parse_int
  oversized = elim (truthy? q.content_length) [
    | none ↦ false
    | some length ↦ elim (parse_int length) [ none ↦ false | some n ↦ above parts.max_body_bytes n ]
  ]

  unfoldable pub check_address : String → Gateway parts → Gateway parts × Result
  unfolding oversized check_credentials refuse_audited
  check_address client_ip g =
      let (m, mitigations) =
        evaluate_request parts.store (s.clock at_mitigation) client_ip none (some q.authorization)
          g.mitigation_engine in
      let g' = record g { mitigation_engine = mitigations } in
      if m.is_mitigated
      then (g', refuse m.http_status (some block))
      else if oversized
      then refuse_audited 413 block (signals 8500 0 3000 q.path) client_ip g'
      else check_credentials client_ip g'

  -- The whole middleware; `none` is a request that the gateway serves itself.
  unfoldable pub security_pipeline : Gateway parts → Option (Gateway parts × Result)
  unfolding check_address
  security_pipeline g =
      if bypasses q.path
      then none
      else some (check_address (get_verified_client_ip parts.ip_library parts.trusted_proxies q) g)
