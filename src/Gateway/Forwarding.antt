-- ===== src/Gateway/Forwarding.antt =====
-- What a request has passed when gateway/app.py sends it upstream.
use erp_security.Prelude.{
  ℕ, ◌*◌, ◌<◌, max, String, ◌≡◌, ◌≢◌, ap, ◌∙◌, ◌⊎◌, inl, inr, arith, Option, none, some, Bool, true,
  false, not, ◌&&◌, [], ◌∷◌, Bool-cases, Option-cases, dec_lt,
}
use erp_security.Mitigation.State.{MitigationEngine}
use erp_security.Mitigation.Evaluate.{evaluate_request}
use erp_security.CredentialDefense.{check_status}
use erp_security.ReplayGuard.{validate_request}
use erp_security.AuthEngine.{Claims, decode_and_verify, sub_of}
use erp_security.RouteAllowlist.{RouteRule, validate_route}
use erp_security.Risk.{Decision, limit, challenge, block, allow}
use erp_security.Risk.Policy.{critical_blocks}
use erp_security.Gateway.{
  Request, Surroundings, Parts, Gateway, Result, at_mitigation, at_credentials, at_replay,
  at_principal, bypasses, get_verified_client_ip,
}
use erp_security.Gateway.Pipeline.{
  Caller, verified_caller, payload_of, permitted, freshness_exempt, has_freshness, mutating,
  refuse_audited, enforce, weigh, check_object, check_principal, anonymous, auth_exempt,
  authenticate, check_replay, schema_error, check_route, is_attack, inspect, check_credentials,
  oversized, check_address, security_pipeline,
}

-- Whether something was sent upstream.
abbrev pub sends : {A : Type 0} → A × Result → Bool
sends (g, r) = elim r.forwarded [ [] ↦ false | f ∷ fs ↦ true ]

-- What a guard that holds back does not show.
pub quiet : false ≡ true → ⊥
quiet x = cc

tampers : (waf : ℕ) → max waf 9500 < 8000 → ⊥
tampers waf h = omega arith

module _ (parts : Parts) (q : Request) (s : Surroundings) where
  enforce-sends :
      (ip principal : String) (count : ℕ) (d : Decision) (g : Gateway parts)
      → sends (enforce parts q s ip principal count d g) ≡ true
      → d ≢ block
  unfolding enforce
  enforce-sends ip principal count block g h = cc
  enforce-sends ip principal count challenge g h = λ x. cc
  enforce-sends ip principal count limit g h = λ x. cc
  enforce-sends ip principal count allow g h = λ x. cc

  weigh-sends :
      (ip : String) (exempt : Bool) (caller : Caller) (waf : ℕ) (g : Gateway parts)
      → sends (weigh parts q s ip exempt caller waf g) ≡ true
      → waf < 8000
  unfolding weigh
  weigh-sends ip exempt caller waf g h = elim (dec_lt waf 8000) [
    | yes below ↦ below
    | no critical ↦
        elim (enforce-sends ip caller.principal _ _ _ h (critical_blocks _ (inl (omega arith)))) [ ]
  ]

  check_object-sends :
      (ip : String) (c : Claims) (caller : Caller) (waf : ℕ) (g : Gateway parts)
      → sends (check_object parts q s ip c caller waf g) ≡ true
      → (permitted q c (payload_of q.json) ≡ some true) × (waf < 8000)
  unfolding check_object
  check_object-sends ip c caller waf g h = elim (Option-cases (permitted q c (payload_of q.json))) [
    | inl raises ↦ elim (quiet (rw (raises, sends) at h)) [ ]
    | inr (true, p) ↦ (p, weigh-sends ip false caller waf g (rw (p, sends) at h))
    | inr (false, p) ↦
        elim (tampers waf (weigh-sends ip false caller (max waf 9500) g (rw (p, sends) at h))) [ ]
  ]

  check_principal-sends :
      (ip : String) (c : Claims) (caller : Caller) (waf : ℕ) (g : Gateway parts)
      → sends (check_principal parts q s ip c caller waf g) ≡ true
      → let (m, e) =
          evaluate_request parts.store
            (s.clock at_principal)
            ip
            (some caller.principal)
            (some q.authorization)
            g.mitigation_engine in
        (m.is_mitigated ≡ false) × (permitted q c (payload_of q.json) ≡ some true) × (waf < 8000)
  unfolding check_principal
  check_principal-sends ip c caller waf g h =
      let (m, e) =
        evaluate_request parts.store (s.clock at_principal) ip (some caller.principal)
          (some q.authorization) g.mitigation_engine in
      elim (Bool-cases m.is_mitigated) [
        | inl stopped ↦ elim (quiet (rw (stopped, sends) at h)) [ ]
        | inr free ↦
            let (p, low) =
              check_object-sends ip c caller waf (record g { mitigation_engine = e })
                (rw (free, sends) at h) in
            (free, p, low)
      ]

  -- A caller with claims from a verified token, who may reach the object and is under no mitigation.
  pub record IsCleared (ip : String) (e : MitigationEngine parts.store) (c : Claims) : Type 0 where
    pub verified : (decode_and_verify parts.jwt_decode q.authorization).claims ≡ some c
    pub unmitigated :
        (evaluate_request parts.store
          (s.clock at_principal)
          ip
          (some (sub_of c))
          (some q.authorization)
          e).0.is_mitigated
        ≡ false
    pub owner : permitted q c (payload_of q.json) ≡ some true

  authenticate-sends :
      (ip : String) (rule : RouteRule) (waf : ℕ) (g : Gateway parts)
      → sends (authenticate parts q s ip rule waf g) ≡ true
      → ((auth_exempt parts q s rule ≡ true) ⊎ ((c : Claims) × IsCleared ip g.mitigation_engine c))
        × (waf < 8000)
  unfolding authenticate refuse_audited
  authenticate-sends ip rule waf g h =
      let v = decode_and_verify parts.jwt_decode q.authorization in
      elim (Bool-cases (auth_exempt parts q s rule)) [
        | inl exempt ↦
            (inl exempt, weigh-sends ip true (anonymous parts q s) waf g (rw (exempt, sends) at h))
        | inr guarded ↦ elim (Bool-cases v.is_valid) [
          | inr refused ↦ elim (quiet (rw (guarded, refused, sends) at h)) [ ]
          | inl valid ↦ elim (Option-cases v.claims) [
            | inl missing ↦ elim (quiet (rw (guarded, valid, missing, sends) at h)) [ ]
            | inr (c, verified) ↦
                let (free, owner, low) =
                  check_principal-sends ip c (verified_caller c v) waf g
                    (rw (guarded, valid, verified, sends) at h) in
                (inr (c, record { verified = verified; unmitigated = free; owner = owner }), low)
          ]
        ]
      ]

  -- A request that changes something names its freshness, unless its path is exempt, and is no
  -- replay.
  pub record IsFresh (g : Gateway parts) : Type 0 where
    pub named : not (freshness_exempt q.path) && not (has_freshness q.freshness) ≡ false
    pub first_use :
        (validate_request parts.redis (s.clock at_replay) q.freshness g.replay_guard).1.is_replay
        ≡ false

  -- Whose request it is: nobody's, where the route needs no token.
  abbrev pub Access : String → RouteRule → MitigationEngine parts.store → Type 0
  Access ip rule e = (auth_exempt parts q s rule ≡ true) ⊎ ((c : Claims) × IsCleared ip e c)

  check_replay-sends :
      (ip : String) (rule : RouteRule) (waf : ℕ) (g : Gateway parts)
      → sends (check_replay parts q s ip rule waf g) ≡ true
      → ((mutating q.method ≡ false) ⊎ IsFresh g)
        × Access ip rule g.mitigation_engine
        × (waf < 8000)
  unfolding check_replay refuse_audited
  check_replay-sends ip rule waf g h =
      let (guard, verdict) =
        validate_request parts.redis (s.clock at_replay) q.freshness g.replay_guard in
      elim (Bool-cases (mutating q.method)) [
        | inr reads ↦
            let (access, low) = authenticate-sends ip rule waf g (rw (reads, sends) at h) in
            (inl reads, access, low)
        | inl writes ↦
            elim (Bool-cases (not (freshness_exempt q.path) && not (has_freshness q.freshness))) [
              | inl unnamed ↦ elim (quiet (rw (writes, unnamed, sends) at h)) [ ]
              | inr named ↦ elim (Bool-cases verdict.is_replay) [
                | inl replay ↦ elim (quiet (rw (writes, named, replay, sends) at h)) [ ]
                | inr unused ↦
                    let (access, low) =
                      authenticate-sends ip rule waf (record g { replay_guard = guard })
                        (rw (writes, named, unused, sends) at h) in
                    (inr (record { named = named; first_use = unused }), access, low)
              ]
            ]
      ]

  -- What the firewall, the catalogue, the schemas and the replay guard say of a request.
  pub record IsPassed (ip : String) (g : Gateway parts) : Type 0 where
    pub clean : is_attack parts q s ≡ false
    pub rule : RouteRule
    pub known : (validate_route q.path q.method g.routes).matching_rule ≡ some rule
    pub method_allowed : (validate_route q.path q.method g.routes).is_method_allowed ≡ true
    pub valid_body : schema_error parts q s ≡ none
    pub fresh : (mutating q.method ≡ false) ⊎ IsFresh g
    pub access : Access ip rule g.mitigation_engine

  inspect-sends :
      (ip : String) (threat : ℕ) (g : Gateway parts)
      → sends (inspect parts q s ip threat g) ≡ true
      → IsPassed ip g
  unfolding inspect check_route refuse_audited
  inspect-sends ip threat g h =
      let v = validate_route q.path q.method g.routes in
      elim (Bool-cases (is_attack parts q s)) [
        | inl attack ↦ elim (quiet (rw (attack, sends) at h)) [ ]
        | inr clean ↦ elim (Option-cases v.matching_rule) [
          | inl unknown ↦ elim (quiet (rw (clean, unknown, sends) at h)) [ ]
          | inr (rule, known) ↦ elim (Bool-cases v.is_method_allowed) [
            | inr other ↦ elim (quiet (rw (clean, known, other, sends) at h)) [ ]
            | inl allowed ↦ elim (Option-cases (schema_error parts q s)) [
              | inr (status, invalid) ↦
                  elim (quiet (rw (clean, known, allowed, invalid, sends) at h)) [ ]
              | inl valid ↦
                  let (fresh, access, low) =
                    check_replay-sends ip rule threat g
                      (rw (clean, known, allowed, valid, sends) at h) in
                  record {
                    clean = clean;
                    rule = rule;
                    known = known;
                    method_allowed = allowed;
                    valid_body = valid;
                    fresh = fresh;
                    access = access;
                  }
            ]
          ]
        ]
      ]

  check_address-sends :
      (ip : String) (g : Gateway parts)
      → sends (check_address parts q s ip g) ≡ true
      → let (m, e) =
          evaluate_request parts.store
            (s.clock at_mitigation)
            ip
            none
            (some q.authorization)
            g.mitigation_engine in
        let (defence, is_brute_force, threat, reasons) =
          check_status (s.clock at_credentials) ip "" g.credential_defense in
        (m.is_mitigated ≡ false)
        × (oversized parts q s ≡ false)
        × (is_brute_force ≡ false)
        × IsPassed ip (record g { mitigation_engine = e; credential_defense = defence })
  unfolding check_address check_credentials refuse_audited
  check_address-sends ip g h =
      let (m, e) =
        evaluate_request parts.store (s.clock at_mitigation) ip none (some q.authorization)
          g.mitigation_engine in
      let (defence, is_brute_force, threat, reasons) =
        check_status (s.clock at_credentials) ip "" g.credential_defense in
      elim (Bool-cases m.is_mitigated) [
        | inl stopped ↦ elim (quiet (rw (stopped, sends) at h)) [ ]
        | inr free ↦ elim (Bool-cases (oversized parts q s)) [
          | inl large ↦ elim (quiet (rw (free, large, sends) at h)) [ ]
          | inr small ↦ elim (Bool-cases is_brute_force) [
            | inl locked ↦ elim (quiet (rw (free, small, locked, sends) at h)) [ ]
            | inr unlocked ↦ (
              free,
              small,
              unlocked,
              inspect-sends ip (100 * threat)
                  (record g { mitigation_engine = e; credential_defense = defence })
                  (rw (free, small, unlocked, sends) at h),
            )
          ]
        ]
      ]

  -- A request that is sent upstream has passed every check. Whatever the state of the gateway and
  -- the answers of the parts that are parameters: its address is under no mitigation and not locked
  -- for failed logins, its Content-Length header, if it is a number, names no more than allowed, the
  -- firewall finds no attack in it, its path is known and its route takes its method, its body
  -- satisfies the schema where there is one, and if its method is POST, PUT, DELETE or PATCH, in
  -- capitals, it is no replay and carries a nonce, a key or a timestamp unless its path is exempt
  -- from that; and its route needs no token, or its token is verified, its principal is under no
  -- mitigation, and may reach the object.
  pub sent_is_checked :
      (g g' : Gateway parts) (r : Result)
      → security_pipeline parts q s g ≡ some (g', r)
      → sends (g', r) ≡ true
      → let ip = get_verified_client_ip parts.ip_library parts.trusted_proxies q in
        let (m, e) =
          evaluate_request parts.store
            (s.clock at_mitigation)
            ip
            none
            (some q.authorization)
            g.mitigation_engine in
        let (defence, is_brute_force, threat, reasons) =
          check_status (s.clock at_credentials) ip "" g.credential_defense in
        (m.is_mitigated ≡ false)
        × (oversized parts q s ≡ false)
        × (is_brute_force ≡ false)
        × IsPassed ip (record g { mitigation_engine = e; credential_defense = defence })
  unfolding security_pipeline
  sent_is_checked g g' r answered sent =
      let ip = get_verified_client_ip parts.ip_library parts.trusted_proxies q in
      elim (Bool-cases (bypasses q.path)) [
        | inl served ↦ elim (none_ne (g', r) (rw served at answered)) [ ]
        | inr proxied ↦
            check_address-sends ip g
              (ap (λ o. elim o [ none ↦ false | some p ↦ sends p ]) (rw proxied at answered) ∙ sent)
      ]
    where
      none_ne :
          (p : Gateway parts × Result) → ◌≡◌ {A = Option (Gateway parts × Result)} none (some p) → ⊥
      none_ne p x = cc
