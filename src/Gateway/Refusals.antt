-- ===== src/Gateway/Refusals.antt =====
-- What gateway/app.py leaves of the state of the upstream when it refuses, and when proxying fails.
use erp_security.Prelude.{
  ℕ, ◌*◌, max, String, ◌≡◌, refl, ap, ◌∙◌, ◌⊎◌, inl, inr, Option, none, some, Bool, true, false,
  not, ◌&&◌, ltb, [], Bool-cases, Option-cases,
}
use mathlib.Core.Path.{subst}
use erp_security.Mitigation.Evaluate.{evaluate_request}
use erp_security.CredentialDefense.{check_status}
use erp_security.ReplayGuard.{validate_request}
use erp_security.AuthEngine.{Claims, decode_and_verify}
use erp_security.RouteAllowlist.{RouteRule, validate_route}
use erp_security.Risk.{Decision, limit, challenge, block, allow, calculate_risk}
use erp_security.Breaker.{CircuitBreaker, allow_request}
use erp_security.Breaker.Isolation.{refuses-same}
use erp_security.CanaryRouter.Router.{CanaryRouter}
use erp_security.Gateway.{
  Request, Surroundings, Attempt, responded, event_loop_closed, other_exception, Parts, Gateway,
  Result, at_replay, at_principal, at_breaker, at_mitigation, at_credentials, bypasses,
  get_verified_client_ip,
}
use erp_security.Gateway.Upstream.{forward, send}
use erp_security.Gateway.Pipeline.{
  Caller, verified_caller, payload_of, permitted, freshness_exempt, has_freshness, mutating, emit,
  refuse_audited, enforce, rate, weighed, weigh, check_object, check_principal, anonymous,
  auth_exempt, authenticate, check_replay, schema_error, check_route, is_attack, inspect,
  check_credentials, oversized, check_address, security_pipeline,
}
use erp_security.Gateway.Forwarding.{sends, quiet}

module _ (parts : Parts) (q : Request) (s : Surroundings) (cb : CircuitBreaker)
    (cr : CanaryRouter) where
  -- Something was sent, or what is known of the upstream is as it was.
  abbrev Spares : Gateway parts × Result → Type 0
  Spares p = (sends p ≡ true) ⊎ ((p.0.circuit_breaker ≡ cb) × (p.0.canary_router ≡ cr))

  abbrev Knows : Gateway parts → Type 0
  Knows g = (g.circuit_breaker ≡ cb) × (g.canary_router ≡ cr)

  send-sends :
      (ip : String) (is_canary : Bool) (d : Decision) (a : Attempt) (g : Gateway parts)
      → sends (send parts q s ip is_canary d a g) ≡ true
  unfolding send
  send-sends ip is_canary d (responded status) g = refl
  send-sends ip is_canary d event_loop_closed g = refl
  send-sends ip is_canary d other_exception g = refl

  forward-Spares :
      (ip principal : String) (d : Decision) (g : Gateway parts)
      → Knows g
      → Spares (forward parts q s ip principal d g)
  unfolding forward
  forward-Spares ip principal d g h =
      elim (Bool-cases (allow_request (s.clock at_breaker) g.circuit_breaker).1) [
        | inl allowed ↦ rw allowed (inl (send-sends ip _ d s.first_attempt _))
        | inr refused ↦
            rw refused
              (inr (refuses-same (s.clock at_breaker) g.circuit_breaker refused ∙ h.0, h.1))
      ]

  enforce-Spares :
      (ip principal : String) (count : ℕ) (d : Decision) (g : Gateway parts)
      → Knows g
      → Spares (enforce parts q s ip principal count d g)
  unfolding enforce
  enforce-Spares ip principal count block g h = inr h
  enforce-Spares ip principal count challenge g h = inr h
  enforce-Spares ip principal count limit g h = elim (Bool-cases (ltb 1000 count)) [
    | inl many ↦ rw many (inr h)
    | inr few ↦ rw few (forward-Spares ip principal limit g h)
  ]
  enforce-Spares ip principal count allow g h = elim (Bool-cases (ltb 1000 count)) [
    | inl many ↦ rw many (inr h)
    | inr few ↦ rw few (forward-Spares ip principal allow g h)
  ]

  weigh-Spares :
      (ip : String) (exempt : Bool) (caller : Caller) (waf : ℕ) (g : Gateway parts)
      → Knows g
      → Spares (weigh parts q s ip exempt caller waf g)
  unfolding weigh emit
  weigh-Spares ip exempt caller waf g h =
      enforce-Spares ip caller.principal (rate parts q s ip g).1
        (calculate_risk (weighed parts q s ip exempt caller waf g)).decision _ h

  check_object-Spares :
      (ip : String) (c : Claims) (caller : Caller) (waf : ℕ) (g : Gateway parts)
      → Knows g
      → Spares (check_object parts q s ip c caller waf g)
  unfolding check_object
  check_object-Spares ip c caller waf g h =
      elim (Option-cases (permitted q c (payload_of q.json))) [
        | inl raises ↦ rw (raises, check_object) (inr h)
        | inr (true, p) ↦ rw (p, check_object) (weigh-Spares ip false caller waf g h)
        | inr (false, p) ↦ rw (p, check_object) (weigh-Spares ip false caller (max waf 9500) g h)
      ]

  check_principal-Spares :
      (ip : String) (c : Claims) (caller : Caller) (waf : ℕ) (g : Gateway parts)
      → Knows g
      → Spares (check_principal parts q s ip c caller waf g)
  unfolding check_principal
  check_principal-Spares ip c caller waf g h =
      let (m, e) =
        evaluate_request parts.store (s.clock at_principal) ip (some caller.principal)
          (some q.authorization) g.mitigation_engine in
      elim (Bool-cases m.is_mitigated) [
        | inl stopped ↦ rw stopped (inr h)
        | inr free ↦
            rw free (check_object-Spares ip c caller waf (record g { mitigation_engine = e }) h)
      ]

  authenticate-Spares :
      (ip : String) (rule : RouteRule) (waf : ℕ) (g : Gateway parts)
      → Knows g
      → Spares (authenticate parts q s ip rule waf g)
  unfolding authenticate refuse_audited emit
  authenticate-Spares ip rule waf g h =
      let v = decode_and_verify parts.jwt_decode q.authorization in
      elim (Bool-cases (auth_exempt parts q s rule)) [
        | inl exempt ↦ rw exempt (weigh-Spares ip true (anonymous parts q s) waf g h)
        | inr guarded ↦ elim (Bool-cases v.is_valid) [
          | inr refused ↦ rw (guarded, refused) (inr h)
          | inl valid ↦ elim (Option-cases v.claims) [
            | inl missing ↦ rw (guarded, valid, missing) (inr h)
            | inr (c, verified) ↦
                rw (guarded, valid, verified)
                  (check_principal-Spares ip c (verified_caller c v) waf g h)
          ]
        ]
      ]

  check_replay-Spares :
      (ip : String) (rule : RouteRule) (waf : ℕ) (g : Gateway parts)
      → Knows g
      → Spares (check_replay parts q s ip rule waf g)
  unfolding check_replay refuse_audited emit
  check_replay-Spares ip rule waf g h =
      let (guard, verdict) =
        validate_request parts.redis (s.clock at_replay) q.freshness g.replay_guard in
      elim (Bool-cases (mutating q.method)) [
        | inr reads ↦ rw reads (authenticate-Spares ip rule waf g h)
        | inl writes ↦
            elim (Bool-cases (not (freshness_exempt q.path) && not (has_freshness q.freshness))) [
              | inl unnamed ↦ rw (writes, unnamed) (inr h)
              | inr named ↦ elim (Bool-cases verdict.is_replay) [
                | inl replay ↦ rw (writes, named, replay) (inr h)
                | inr unused ↦
                    rw (writes, named, unused)
                      (authenticate-Spares ip rule waf (record g { replay_guard = guard }) h)
              ]
            ]
      ]

  check_route-Spares :
      (ip : String) (waf : ℕ) (g : Gateway parts)
      → Knows g
      → Spares (check_route parts q s ip waf g)
  unfolding check_route
  check_route-Spares ip waf g h =
      let v = validate_route q.path q.method g.routes in
      elim (Option-cases v.matching_rule) [
        | inl unknown ↦ rw (unknown, check_route) (inr h)
        | inr (rule, known) ↦ elim (Bool-cases v.is_method_allowed) [
          | inr other ↦ rw (known, check_route, other) (inr h)
          | inl allowed ↦ elim (Option-cases (schema_error parts q s)) [
            | inr (status, invalid) ↦ rw (known, check_route, allowed, invalid) (inr h)
            | inl valid ↦
                rw (known, check_route, allowed, valid) (check_replay-Spares ip rule waf g h)
          ]
        ]
      ]

  inspect-Spares :
      (ip : String) (threat : ℕ) (g : Gateway parts)
      → Knows g
      → Spares (inspect parts q s ip threat g)
  unfolding inspect refuse_audited emit
  inspect-Spares ip threat g h = elim (Bool-cases (is_attack parts q s)) [
    | inl attack ↦ rw attack (inr h)
    | inr clean ↦ rw clean (check_route-Spares ip threat g h)
  ]

  check_credentials-Spares :
      (ip : String) (g : Gateway parts) → Knows g → Spares (check_credentials parts q s ip g)
  unfolding check_credentials refuse_audited emit
  check_credentials-Spares ip g h =
      let (defence, is_brute_force, threat, reasons) =
        check_status (s.clock at_credentials) ip "" g.credential_defense in
      elim (Bool-cases is_brute_force) [
        | inl locked ↦ rw locked (inr h)
        | inr unlocked ↦
            rw unlocked
              (inspect-Spares ip (100 * threat) (record g { credential_defense = defence }) h)
      ]

  check_address-Spares :
      (ip : String) (g : Gateway parts) → Knows g → Spares (check_address parts q s ip g)
  unfolding check_address refuse_audited emit
  check_address-Spares ip g h =
      let (m, e) =
        evaluate_request parts.store (s.clock at_mitigation) ip none (some q.authorization)
          g.mitigation_engine in
      elim (Bool-cases m.is_mitigated) [
        | inl stopped ↦ rw stopped (inr h)
        | inr free ↦ elim (Bool-cases (oversized parts q s)) [
          | inl large ↦ rw (free, large) (inr h)
          | inr small ↦
              rw (free, small) (check_credentials-Spares ip (record g { mitigation_engine = e }) h)
        ]
      ]

-- A request that the gateway refuses leaves no trace on the upstream: where nothing is sent, for
-- whatever reason, the circuit breaker and the canary router with its metrics are as before, so
-- attacks can neither trip the breaker nor roll a canary back.
pub refusal_spares_upstream :
    (parts : Parts) (q : Request) (s : Surroundings) (g g' : Gateway parts) (r : Result)
    → security_pipeline parts q s g ≡ some (g', r)
    → r.forwarded ≡ []
    → (g'.circuit_breaker ≡ g.circuit_breaker) × (g'.canary_router ≡ g.canary_router)
unfolding security_pipeline
refusal_spares_upstream parts q s g g' r answered unsent =
    let ip = get_verified_client_ip parts.ip_library parts.trusted_proxies q in
    elim (Bool-cases (bypasses q.path)) [
      | inl served ↦ elim (none_ne (g', r) (rw served at answered)) [ ]
      | inr proxied ↦
          settle (some_inj (check_address parts q s ip g) (g', r) (rw proxied at answered))
            (check_address-Spares parts q s g.circuit_breaker g.canary_router ip g (refl, refl))
    ]
  where
    none_ne :
        (p : Gateway parts × Result) → ◌≡◌ {A = Option (Gateway parts × Result)} none (some p) → ⊥
    none_ne p x = cc

    some_inj :
        (p p' : Gateway parts × Result)
        → ◌≡◌ {A = Option (Gateway parts × Result)} (some p) (some p')
        → p ≡ p'
    some_inj p p' x = ap (λ o. elim o [ none ↦ p | some k ↦ k ]) x

    settle :
        {p : Gateway parts × Result}
        → p ≡ (g', r)
        → Spares parts q s g.circuit_breaker g.canary_router p
        → (g'.circuit_breaker ≡ g.circuit_breaker) × (g'.canary_router ≡ g.canary_router)
    settle e h = elim (subst (Spares parts q s g.circuit_breaker g.canary_router) e h) [
      | inl sent ↦ elim (quiet (rw (unsent, sends) at sent)) [ ]
      | inr same ↦ same
    ]
