-- ===== src/Gateway/Admission.antt =====
-- Which requests gateway/app.py is sure to send upstream.
use erp_security.Prelude.{
  ℕ, String, ◌≡◌, refl, ◌⊎◌, inl, inr, arith, none, some, Bool, true, false, ltb, Bool-cases,
}
use erp_security.Mitigation.Evaluate.{evaluate_request}
use erp_security.CredentialDefense.{CredentialDefense, check_status}
use erp_security.ReplayGuard.{validate_request}
use erp_security.AuthEngine.{Claims, decode_and_verify}
use erp_security.RouteAllowlist.{RouteRule}
use erp_security.Risk.{Decision, limit, allow, calculate_risk}
use erp_security.Risk.Admission.{IsBenign, benign_admitted}
use erp_security.Breaker.{allow_request}
use erp_security.Gateway.{
  Request, Surroundings, responded, Parts, Gateway, response, Result, at_mitigation, at_credentials,
  at_replay, at_principal, at_breaker, bypasses, get_verified_client_ip,
}
use erp_security.Gateway.Upstream.{forward, send}
use erp_security.Gateway.Pipeline.{
  Caller, verified_caller, payload_of, permitted, mutating, emit, enforce, rate, weighed, weigh,
  check_object, check_principal, anonymous, auth_exempt, authenticate, check_replay, check_route,
  inspect, check_credentials, oversized, check_address, security_pipeline,
}
use erp_security.Gateway.Forwarding.{sends, IsPassed, IsCleared, IsFresh}

threat_free :
    (now : ℕ) (ip : String) (c : CredentialDefense)
    → (check_status now ip "" c).1 ≡ false
    → (check_status now ip "" c).2 ≡ 0
unfolding check_status
threat_free now ip c h = ground arith

module _ (parts : Parts) (q : Request) (s : Surroundings) (status : ℕ)
    (up : s.first_attempt ≡ responded status) where
  -- The answer of the upstream is passed on.
  abbrev pub Delivers : Gateway parts × Result → Type 0
  Delivers p = (sends p ≡ true) × (d : Decision) × (p.1.answer ≡ response status (some d))

  abbrev pub Admits : Gateway parts → Type 0
  Admits g = (allow_request (s.clock at_breaker) g.circuit_breaker).1 ≡ true

  forward-Delivers :
      (ip principal : String) (d : Decision) (g : Gateway parts)
      → Admits g
      → Delivers (forward parts q s ip principal d g)
  unfolding forward send
  forward-Delivers ip principal d g h = rw (h, up) (refl, d, refl)

  enforce-Delivers :
      (ip principal : String) (count : ℕ) (d : Decision) (g : Gateway parts)
      → (d ≡ allow) ⊎ (d ≡ limit)
      → ltb 1000 count ≡ false
      → Admits g
      → Delivers (enforce parts q s ip principal count d g)
  unfolding enforce
  enforce-Delivers ip principal count d g (inl e) few h =
      rw (e, few) (forward-Delivers ip principal allow g h)
  enforce-Delivers ip principal count d g (inr e) few h =
      rw (e, few) (forward-Delivers ip principal limit g h)

  -- Nothing is held against a caller, who asks seldom.
  pub record IsHarmless (ip : String) (exempt : Bool) (caller : Caller) (g : Gateway parts)
      : Type 0 where
    pub benign : IsBenign (weighed parts q s ip exempt caller 0 g)
    pub few : ltb 1000 (rate parts q s ip g).1 ≡ false
    pub admitted : Admits g

  weigh-Delivers :
      (ip : String) (exempt : Bool) (caller : Caller) (g : Gateway parts)
      → IsHarmless ip exempt caller g
      → Delivers (weigh parts q s ip exempt caller 0 g)
  unfolding weigh emit
  weigh-Delivers ip exempt caller g h =
      enforce-Delivers ip caller.principal (rate parts q s ip g).1
        (calculate_risk (weighed parts q s ip exempt caller 0 g)).decision _
        (benign_admitted (weighed parts q s ip exempt caller 0 g) h.benign) h.few h.admitted

  -- The caller is settled: the route needs no token, or the token of the caller is verified.
  pub data IsSettled (ip : String) (rule : RouteRule) (g : Gateway parts) : Type 0 where
    open_route :
        auth_exempt parts q s rule ≡ true
        → IsHarmless ip true (anonymous parts q s) g
        → IsSettled ip rule g
    with_token :
        (c : Claims)
        → auth_exempt parts q s rule ≡ false
        → (decode_and_verify parts.jwt_decode q.authorization).is_valid ≡ true
        → IsCleared parts q s ip g.mitigation_engine c
        → IsHarmless ip false
            (verified_caller c (decode_and_verify parts.jwt_decode q.authorization))
            g
        → IsSettled ip rule g

  check_object-Delivers :
      (ip : String) (c : Claims) (caller : Caller) (g : Gateway parts)
      → permitted q c (payload_of q.json) ≡ some true
      → IsHarmless ip false caller g
      → Delivers (check_object parts q s ip c caller 0 g)
  unfolding check_object
  check_object-Delivers ip c caller g owner h =
      rw (owner, check_object) (weigh-Delivers ip false caller g h)

  check_principal-Delivers :
      (ip : String) (c : Claims) (caller : Caller) (g : Gateway parts)
      → (evaluate_request parts.store
          (s.clock at_principal)
          ip
          (some caller.principal)
          (some q.authorization)
          g.mitigation_engine).0.is_mitigated
        ≡ false
      → permitted q c (payload_of q.json) ≡ some true
      → IsHarmless ip false caller g
      → Delivers (check_principal parts q s ip c caller 0 g)
  unfolding check_principal
  check_principal-Delivers ip c caller g free owner h = rw free (
      check_object-Delivers ip c caller _ owner
        (record { benign = h.benign; few = h.few; admitted = h.admitted }))

  authenticate-Delivers :
      (ip : String) (rule : RouteRule) (g : Gateway parts)
      → IsSettled ip rule g
      → Delivers (authenticate parts q s ip rule 0 g)
  unfolding authenticate
  authenticate-Delivers ip rule g (open_route exempt h) =
      rw exempt (weigh-Delivers ip true (anonymous parts q s) g h)
  authenticate-Delivers ip rule g (with_token c guarded valid cleared h) =
      let caller = verified_caller c (decode_and_verify parts.jwt_decode q.authorization) in
      rw (guarded, valid, cleared.verified)
        (check_principal-Delivers ip c caller g cleared.unmitigated cleared.owner h)

  check_replay-Delivers :
      (ip : String) (rule : RouteRule) (g : Gateway parts)
      → (mutating q.method ≡ false) ⊎ IsFresh parts q s g
      → IsSettled ip rule g
      → Delivers (check_replay parts q s ip rule 0 g)
  unfolding check_replay
  check_replay-Delivers ip rule g (inl reads) h = rw reads (authenticate-Delivers ip rule g h)
  check_replay-Delivers ip rule g (inr fresh) h = elim (Bool-cases (mutating q.method)) [
    | inr reads ↦ rw reads (authenticate-Delivers ip rule g h)
    | inl writes ↦
        rw (writes, fresh.named, fresh.first_use) (authenticate-Delivers ip rule _ (settled h))
  ]
    where
      settled :
          IsSettled ip rule g
          → IsSettled ip rule (record g {
            replay_guard =
                (validate_request parts.redis (s.clock at_replay) q.freshness g.replay_guard).0;
          })
      settled (open_route exempt k) =
          open_route exempt (record { benign = k.benign; few = k.few; admitted = k.admitted })
      settled (with_token c guarded valid cleared k) =
          with_token c guarded valid cleared
            (record { benign = k.benign; few = k.few; admitted = k.admitted })

  check_route-Delivers :
      (ip : String) (g : Gateway parts) (p : IsPassed parts q s ip g)
      → IsSettled ip p.rule g
      → Delivers (check_route parts q s ip 0 g)
  unfolding check_route
  check_route-Delivers ip g p h =
      rw (p.known, check_route, p.method_allowed, p.valid_body)
        (check_replay-Delivers ip p.rule g p.fresh h)

  check_credentials-Delivers :
      (ip : String) (g : Gateway parts)
      → let (defence, is_brute_force, threat, reasons) =
          check_status (s.clock at_credentials) ip "" g.credential_defense in
        let g1 = record g { credential_defense = defence } in
        is_brute_force ≡ false
        → (p : IsPassed parts q s ip g1) → IsSettled ip p.rule g1
        → Delivers (check_credentials parts q s ip g)
  unfolding check_credentials inspect
  check_credentials-Delivers ip g unlocked p h =
      rw (unlocked, threat_free (s.clock at_credentials) ip g.credential_defense unlocked, p.clean)
        (check_route-Delivers ip _ p h)

  -- A legitimate request reaches the upstream and gets its answer: where its path is none that the
  -- gateway serves itself, its address is under no mitigation and not locked, its Content-Length
  -- header names no number above what is allowed, the firewall, the catalogue, the schema and the
  -- replay guard pass it, its route needs no token or its caller is verified, under no mitigation
  -- and may reach the object, neither the authentication nor the rules nor the rate limiter hold
  -- anything against it, its user is trusted by half or more, it is one of at most 1000 in a minute,
  -- and the circuit breaker admits it, and its first attempt upstream responds, then, whatever its
  -- anomaly, the middleware sends it and answers with the status that the upstream responded.
  pub legitimate_served :
      (g : Gateway parts)
      → bypasses q.path ≡ false
      → let ip = get_verified_client_ip parts.ip_library parts.trusted_proxies q in
        let (m, e) =
          evaluate_request parts.store
            (s.clock at_mitigation)
            ip
            none
            (some q.authorization)
            g.mitigation_engine in
        let (defence, is_brute_force, threat, reasons) =
          check_status (s.clock at_credentials) ip "" g.credential_defense in
        let g1 = record g { mitigation_engine = e; credential_defense = defence } in
        m.is_mitigated ≡ false
        → oversized parts q s ≡ false
        → is_brute_force ≡ false
        → (p : IsPassed parts q s ip g1) → IsSettled ip p.rule g1
        → (r : Gateway parts × Result) × (security_pipeline parts q s g ≡ some r) × Delivers r
  unfolding security_pipeline check_address
  legitimate_served g proxied free small unlocked p h =
      let ip = get_verified_client_ip parts.ip_library parts.trusted_proxies q in
      (
        check_address parts q s ip g,
        rw proxied refl,
        rw (free, small) (check_credentials-Delivers ip _ unlocked p h),
      )
