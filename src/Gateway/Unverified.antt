-- ===== src/Gateway/Unverified.antt =====
-- What gateway/app.py does with a request without a verified token.
use erp_security.Prelude.{
  String, starts_with, ◌==◌, arith, eq_iff, ◌≡◌, ◌≢◌, refl, sym, ◌∙◌, inl, inr, none, some, Bool,
  true, false, List, [], ◌∷◌, ap, Option,
}
use erp_security.AuthEngine.{Claims, Decoded, bearer_token, decode_and_verify}
use erp_security.AuthEngine.Verified.{claims_are_verified}
use erp_security.RouteAllowlist.{RouteRule, validate_route}
use erp_security.Gateway.{Request, Surroundings, Parts, Gateway, Result, Forwarded}
use erp_security.Gateway.Pipeline.{auth_exempt, security_pipeline}
use erp_security.Gateway.Forwarding.{IsPassed, sent_is_checked}

module _ (parts : Parts) (q : Request) (s : Surroundings) where
  -- The header is no bearer token, or the token library decodes no claims from it.
  abbrev pub NoClaims : Type 0
  NoClaims =
      (c : Claims)
      → starts_with q.authorization "Bearer " ≡ true
      → parts.jwt_decode (bearer_token q.authorization) ≢ Decoded.claims c

  guarded :
      (rule : RouteRule)
      → rule.auth_required ≡ true
      → (q.path == "/health") ≡ false
      → (q.path == "/api/auth/login") ≡ false
      → auth_exempt parts q s rule ≡ false
  unfolding auth_exempt
  guarded rule needed health login = ground (
    arith,
    eq_iff q.path "/health",
    eq_iff q.path "/api/auth/login",
    eq_iff "/health" q.path,
    eq_iff "/api/auth/login" q.path,
  )

  NoClaims-none :
      NoClaims → (c : Claims) → (decode_and_verify parts.jwt_decode q.authorization).claims ≢ some c
  NoClaims-none bare c x = elim (claims_are_verified parts.jwt_decode q.authorization) [
    | inl (c', scheme, decoded, valid, given) ↦ bare c' scheme decoded
    | inr (invalid, nothing, score) ↦ none_ne (sym nothing ∙ x)
  ]
    where
      none_ne : ◌≡◌ {A = Option Claims} none (some c) → ⊥
      none_ne y = cc

  -- Without a verified token nothing reaches the upstream on a route that needs one: where the route
  -- of the path demands authentication, the path is neither /health nor /api/auth/login, and the
  -- header is no bearer token or the token library decodes no claims from it, a request that the
  -- middleware answers sends nothing upstream, whatever else it is and whatever the state of the
  -- gateway.
  pub unverified_not_sent :
      (g g' : Gateway parts) (r : Result) (rule : RouteRule)
      → (validate_route q.path q.method g.routes).matching_rule ≡ some rule
      → rule.auth_required ≡ true
      → (q.path == "/health") ≡ false
      → (q.path == "/api/auth/login") ≡ false
      → NoClaims
      → security_pipeline parts q s g ≡ some (g', r)
      → r.forwarded ≡ []
  unverified_not_sent g g' r rule matched needed health login bare answered =
      nothing r.forwarded (λ sent. refused refl (sent_is_checked parts q s g g' r answered sent).3)
    where
      same : (a b : RouteRule) → some a ≡ some b → a ≡ b
      same a b x = cc

      differs : (b : Bool) → b ≡ true → b ≡ false → ⊥
      differs b x y = cc

      refused :
          {ip : String} {h : Gateway parts} → h.routes ≡ g.routes → IsPassed parts q s ip h → ⊥
      refused {ip} {h} routes h' = elim h'.access [
        | inl exempt ↦
            differs (auth_exempt parts q s rule)
              (ap (auth_exempt parts q s) (
                  same rule h'.rule (
                    sym matched
                    ∙ ap (λ rs. (validate_route q.path q.method rs).matching_rule) (sym routes)
                    ∙ h'.known))
                ∙ exempt)
              (guarded rule needed health login)
        | inr (c, cleared) ↦ NoClaims-none bare c cleared.verified
      ]

      nothing :
          (fs : List Forwarded) → ((elim fs [ [] ↦ false | f ∷ rest ↦ true ]) ≡ true → ⊥) → fs ≡ []
      nothing [] k = refl
      nothing (f ∷ rest) k = elim (k refl) [ ]
