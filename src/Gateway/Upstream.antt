-- ===== src/Gateway/Upstream.antt =====
-- The last phase of gateway/app.py: the circuit breaker, the canary route, and the request to the
-- upstream with what its outcome records.
use erp_security.Prelude.{
  ℕ, String, ◌==◌, Option, none, some, Bool, ◌&&◌, eqb, if◌then◌else◌, [], ◌∷◌, get_or,
}
use erp_security.Prelude.Json.{Json, as_object, as_text, lookup}
use erp_security.Breaker.{allow_request, record_success, record_failure}
use erp_security.CanaryRouter.Router.{should_route_to_canary}
use erp_security.CanaryRouter.Slo.{record_metric}
use erp_security.CredentialDefense
use erp_security.Risk.{Decision}
use erp_security.Gateway.{
  Request, Surroundings, Attempt, responded, event_loop_closed, other_exception, Parts, Gateway,
  Answer, response, escaped, Forwarded, Result, refuse, at_breaker, at_success, at_metric,
  at_login_failure, at_failure, at_trip, at_failure_metric,
}

-- `login_body.get("username", "")`, where a user name is a text; "" where reading it raises.
unfoldable pub username_of : Option Json → String
unfolding lookup
username_of none = ""
username_of (some v) = elim (as_object v) [
  | none ↦ ""
  | some d ↦ elim (lookup d "username") [ none ↦ "" | some name ↦ get_or (as_text name) "" ]
]

module _ (parts : Parts) (q : Request) (s : Surroundings) where
  -- What a response of the upstream records.
  unfoldable pub record_response : Bool → ℕ → Gateway parts → Gateway parts
  record_response is_canary status g = record g {
    circuit_breaker = record_success (s.clock at_success) g.circuit_breaker;
    canary_router =
        record_metric is_canary s.latency status (some q.path) q.method (s.clock at_metric)
          g.canary_router;
  }

  -- A login that the upstream refuses is a failure of the address and the user.
  unfoldable pub track_login : String → ℕ → Gateway parts → Gateway parts
  track_login client_ip status g =
      if q.path == "/api/auth/login" && eqb status 401
      then record g {
        credential_defense =
            CredentialDefense.record_failure (s.clock at_login_failure) client_ip
              (username_of q.json) g.credential_defense;
      }
      else g

  unfoldable pub record_exception : Bool → Gateway parts → Gateway parts
  record_exception is_canary g = record g {
    circuit_breaker = record_failure (s.clock at_failure) (s.clock at_trip) g.circuit_breaker;
    canary_router =
        record_metric is_canary s.latency 502 (some q.path) q.method (s.clock at_failure_metric)
          g.canary_router;
  }

  -- The second attempt, inside the handler of the first one's exception.
  unfoldable pub retry : Bool → Decision → Attempt → Gateway parts → Gateway parts × Answer
  retry is_canary decision (responded status) g =
      (record_response is_canary status g, response status (some decision))
  retry is_canary decision event_loop_closed g = (g, escaped)
  retry is_canary decision other_exception g = (g, escaped)

  unfoldable pub send : String → Bool → Decision → Attempt → Gateway parts → Gateway parts × Result
  unfolding record_response track_login record_exception retry
  send client_ip is_canary decision (responded status) g = (
    track_login client_ip status (record_response is_canary status g),
    record {
      answer = response status (some decision);
      forwarded = record { is_canary = is_canary; decision = decision } ∷ [];
    },
  )
  send client_ip is_canary decision event_loop_closed g =
      let sent : Forwarded = record { is_canary = is_canary; decision = decision } in
      let (g', answer) = retry is_canary decision s.second_attempt g in
      (g', record { answer = answer; forwarded = sent ∷ sent ∷ [] })
  send client_ip is_canary decision other_exception g = (
    record_exception is_canary g,
    record {
      answer = response 502 none;
      forwarded = record { is_canary = is_canary; decision = decision } ∷ [];
    },
  )

  -- From the circuit breaker on.
  unfoldable pub forward : String → String → Decision → Gateway parts → Gateway parts × Result
  unfolding send
  forward client_ip principal decision g =
      let (breaker, allowed) = allow_request (s.clock at_breaker) g.circuit_breaker in
      let g' = record g { circuit_breaker = breaker } in
      let is_canary =
        should_route_to_canary parts.md5 (some principal) (some client_ip) q.headers s.draw
          g.canary_router in
      if allowed
      then send client_ip is_canary decision s.first_attempt g'
      else (g', refuse 503 none)
