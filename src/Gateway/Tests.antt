-- ===== src/Gateway/Tests.antt =====
-- Runs of the middleware of gateway/app.py.
use erp_security.Prelude.{
  ℕ, ◌*◌, String, ◌==◌, Option, none, some, Bool, true, false, ◌≡◌, refl, inl, inr, arith, List, [],
  ◌∷◌,
}
use erp_security.StateStore.{second}
use erp_security.StateStore.Memory.{memory_store}
use erp_security.StateStore.Distributed.{Redis}
use erp_security.Config.{IpAddress}
use erp_security.Mitigation.State.{Shared, init}
use erp_security.Mitigation.Evaluate.{evaluate_request}
use erp_security.RateLimiter.{RateClient, rate_limiter}
use erp_security.CredentialDefense.{check_status}
use erp_security.AuthEngine.{Decoded}
use erp_security.RouteAllowlist.{route_rule, validate_route}
use erp_security.RulesEngine.{rules_engine}
use erp_security.Breaker
use erp_security.Breaker.{allow_request}
use erp_security.CanaryRouter.Router.{canary_router, CanaryStage}
use erp_security.Risk.{allow}
use erp_security.Gateway.{
  Request, Surroundings, responded, other_exception, Attempt, Parts, Gateway, Answer, response,
  Result, refuse, at_breaker, at_mitigation, at_credentials, bypasses, get_verified_client_ip,
}
use erp_security.Gateway.Pipeline.{oversized, security_pipeline, anonymous, auth_exempt}
use erp_security.Gateway.Forwarding.{IsPassed, sent_is_checked}
use erp_security.Gateway.Admission.{IsHarmless, open_route, Delivers, legitimate_served}
use erp_security.Gateway.Unverified.{unverified_not_sent}
use erp_security.Gateway.Refusals.{refusal_spares_upstream}
use erp_security.Gateway.Outage.{Proxied}

-- A Redis server and a rate counter that cannot be connected to.
abbrev redis : Redis ℕ
redis = record {
  Server = Unit {0};
  connect = λ now s. (false, s);
  set_nx = λ key ttl s. (none, s);
  sadd = λ name m s. (none, s);
  srem = λ name m s. (none, s);
  sismember = λ name m s. (none, s);
  smembers = λ name s. (none, s);
  hset = λ name key value s. (none, s);
  expire = λ name ttl s. (none, s);
  hget = λ name key s. (none, s);
  hgetall = λ name s. (none, s);
  hdel = λ name key s. (none, s);
  keys = λ pattern s. (none, s);
  delete = λ names s. (none, s);
  dumps = λ v. "";
  loads = λ text. none;
}

abbrev counter : RateClient
counter = record {
  Server = Unit {0};
  connect = λ now server. (false, server);
  incr = λ key ttl server. (none, server);
}

abbrev plain : IpAddress
plain = record {
  Address = String;
  Network = String;
  ip_address = λ s. some s;
  ip_network = λ s. none;
  contains = λ n a. false;
  same = λ a b. a == b;
}

abbrev parts : Parts
parts = record {
  store = memory_store Shared;
  Value = ℕ;
  redis = redis;
  rate_client = counter;
  ip_library = plain;
  trusted_proxies = [];
  max_body_bytes = 1000;
  jwt_decode = λ token. Decoded.invalid_signature;
  sha256 = λ s. s;
  dumps = λ v. "";
  md5 = λ s. 0;
  inspect_content = λ s. (s == "/attack", 90);
  inspect_payload = λ v. (false, 0);
  valid_login = λ v. true;
  valid_order = λ v. true;
  anomaly_score = λ user q. 1500;
  ml_score = λ user q. 0;
  emit = λ event e. e;
}

abbrev gateway : Gateway parts
unfolding memory_store init rules_engine rate_limiter Breaker.init canary_router
gateway = record {
  mitigation_engine = init (memory_store Shared) (record { nonces = []; sets = []; hashes = [] });
  credential_defense = record {
    failure_threshold = 5;
    window = 300 * second;
    ip_failures = [];
    user_failures = [];
  };
  routes = route_rule "/catalogue" ("GET" ∷ []) false [] ∷ [];
  replay_guard = record {
    max_skew_seconds = 300;
    state_store = record {
      fallback = record { nonces = []; sets = []; hashes = [] };
      redis_client = false;
      redis_available = false;
      last_check = 0;
      server = tt;
    };
  };
  rules_engine = rules_engine none;
  rate_limiter = rate_limiter counter tt;
  circuit_breaker = Breaker.init 1 30 1 0;
  canary_router = canary_router CanaryStage.disabled 200 5000 15 true none;
}

abbrev request : String → Request
request path = record {
  method = "GET";
  path = path;
  url = path;
  client_host = some "10.0.0.9";
  forwarded_for = none;
  authorization = "";
  content_length = none;
  body_text = "";
  json = none;
  freshness = record { nonce = none; idempotency_key = none; timestamp = none };
  headers = [];
}

abbrev around : Attempt → Surroundings
around attempt = record {
  clock = λ moment. 7;
  latency = 3;
  draw = 0;
  rules_file = none;
  first_attempt = attempt;
  second_attempt = other_exception;
}

abbrev proxied : Attempt → Proxied
proxied attempt = record {
  request = request "/catalogue";
  surroundings = around attempt;
  client_ip = "10.0.0.9";
  principal = "";
  decision = allow;
}

abbrev q : Request
q = request "/catalogue"

abbrev s : Surroundings
s = around (responded 200)

abbrev ip : String
ip = get_verified_client_ip parts.ip_library parts.trusted_proxies q

-- What is answered; the paths of the tests do not bypass the middleware.
abbrev answer_to : String → Gateway parts × Result
answer_to path = elim (security_pipeline parts (request path) s gateway) [
  | none ↦ (gateway, refuse 404 none)
  | some p ↦ p
]

attack_unsent : (answer_to "/attack").1.forwarded ≡ []
unfolding security_pipeline bypasses evaluate_request erp_security.Mitigation.Evaluate.checks
    erp_security.Mitigation.Evaluate.◌then_check◌ erp_security.Mitigation.Evaluate.check_suspended
    erp_security.Mitigation.Evaluate.check_quarantine erp_security.Mitigation.Evaluate.quarantine_of
    erp_security.Mitigation.Evaluate.local_quarantine erp_security.Prelude.Dict.get gateway
    erp_security.Mitigation.Evaluate.shared_quarantine get_verified_client_ip
    erp_security.Config.is_trusted_proxy erp_security.Config.clean_ip
    erp_security.Prelude.Text.count_char erp_security.StateStore.get_hash_entry
    erp_security.Mitigation.Evaluate.check_token erp_security.Mitigation.Evaluate.check_principal
    erp_security.Mitigation.Evaluate.check_mfa erp_security.Mitigation.Evaluate.check_throttle
    check_status
attack_unsent = refl

refusal_spares_upstream_example :
    ((answer_to "/attack").0.circuit_breaker ≡ gateway.circuit_breaker)
    × ((answer_to "/attack").0.canary_router ≡ gateway.canary_router)
unfolding security_pipeline bypasses
refusal_spares_upstream_example =
    refusal_spares_upstream parts (request "/attack") s gateway (answer_to "/attack").0
      (answer_to "/attack").1 refl attack_unsent

catalogue_proxied : bypasses "/catalogue" ≡ false
unfolding bypasses
catalogue_proxied = refl

free :
    (evaluate_request parts.store 7 ip none (some "") gateway.mitigation_engine).0.is_mitigated
    ≡ false
unfolding evaluate_request erp_security.Mitigation.Evaluate.checks
    erp_security.Mitigation.Evaluate.◌then_check◌ erp_security.Mitigation.Evaluate.check_suspended
    erp_security.Mitigation.Evaluate.check_quarantine erp_security.Mitigation.Evaluate.quarantine_of
    erp_security.Mitigation.Evaluate.local_quarantine erp_security.Prelude.Dict.get gateway
    erp_security.Mitigation.Evaluate.shared_quarantine erp_security.StateStore.get_hash_entry
    erp_security.Mitigation.Evaluate.check_token erp_security.Mitigation.Evaluate.check_principal
    erp_security.Mitigation.Evaluate.check_mfa erp_security.Mitigation.Evaluate.check_throttle
    get_verified_client_ip erp_security.Config.is_trusted_proxy erp_security.Config.clean_ip
    erp_security.Prelude.Text.count_char
free = refl

small : oversized parts q s ≡ false
unfolding oversized
small = refl

unlocked : (check_status 7 ip "" gateway.credential_defense).1 ≡ false
unfolding check_status gateway erp_security.Prelude.Dict.get
unlocked = refl

-- The state after the checks of the address.
abbrev checked : Gateway parts
checked = record gateway {
  mitigation_engine =
      (evaluate_request parts.store 7 ip none (some "") gateway.mitigation_engine).1;
  credential_defense = (check_status 7 ip "" gateway.credential_defense).0;
}

harmless : IsHarmless parts q s 200 refl ip true (anonymous parts q s) checked
unfolding erp_security.RateLimiter.check_rate gateway erp_security.Prelude.Dict.get
    erp_security.RulesEngine.evaluate erp_security.RulesEngine.Checks.check_auth_sequence
    erp_security.Prelude.Text.upper_equals erp_security.RulesEngine.Checks.check_role_escalation
    erp_security.RulesEngine.Checks.check_inventory_depletion
    erp_security.RulesEngine.Checks.check_negative_price allow_request
harmless = record {
  benign = record {
    no_attack = refl;
    no_auth_anomaly = refl;
    no_rate = refl;
    no_rule = refl;
    trusted = omega arith;
  };
  few = refl;
  admitted = refl;
}

passed : IsPassed parts q s ip checked
unfolding erp_security.Gateway.Pipeline.is_attack validate_route gateway route_rule
    erp_security.Gateway.Pipeline.schema_error auth_exempt
passed = record {
  clean = refl;
  rule = route_rule "/catalogue" ("GET" ∷ []) false [];
  known = refl;
  method_allowed = refl;
  valid_body = refl;
  fresh = inl refl;
  access = inl refl;
}

exempt : auth_exempt parts q s passed.rule ≡ true
unfolding auth_exempt passed
exempt = refl

served :
    (r : Gateway parts × Result) × (security_pipeline parts q s gateway ≡ some r)
    × Delivers parts q s 200 refl r
served =
    legitimate_served parts q s 200 refl gateway catalogue_proxied free small unlocked passed
      (open_route exempt harmless)

legitimate_served_example :
    (r : Gateway parts × Result) × (security_pipeline parts q s gateway ≡ some r)
    × Delivers parts q s 200 refl r
legitimate_served_example =
    legitimate_served parts q s 200 refl gateway catalogue_proxied free small unlocked passed
      (open_route exempt harmless)

sent_is_checked_example :
    ((evaluate_request parts.store 7 ip none (some "") gateway.mitigation_engine).0.is_mitigated
      ≡ false)
    × (oversized parts q s ≡ false)
    × ((check_status 7 ip "" gateway.credential_defense).1 ≡ false)
    × IsPassed parts q s ip checked
unfolding served
sent_is_checked_example =
    sent_is_checked parts q s gateway served.0.0 served.0.1 served.1 served.2.0

-- A gateway with a route that needs a token.
abbrev guarded_gateway : Gateway parts
guarded_gateway = record gateway { routes = route_rule "/orders" ("GET" ∷ []) true [] ∷ [] }

abbrev guarded_answer : Gateway parts × Result
guarded_answer = elim (security_pipeline parts (request "/orders") s guarded_gateway) [
  | none ↦ (guarded_gateway, refuse 404 none)
  | some p ↦ p
]

unverified_not_sent_example : guarded_answer.1.forwarded ≡ []
unfolding security_pipeline bypasses validate_route auth_exempt route_rule gateway
unverified_not_sent_example =
    unverified_not_sent parts (request "/orders") s guarded_gateway guarded_answer.0
      guarded_answer.1 (route_rule "/orders" ("GET" ∷ []) true []) refl refl refl refl
      (λ c scheme. cc) refl
