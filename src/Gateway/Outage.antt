-- ===== src/Gateway/Outage.antt =====
-- What gateway/app.py does while the upstream fails.
use erp_security.Prelude.{ℕ, String, ◌≡◌, arith, true, List, [], ◌∷◌}
use erp_security.Breaker.{CircuitBreaker, closed, allow_request}
use erp_security.Risk.{Decision}
use erp_security.Gateway.{
  Request, Surroundings, event_loop_closed, other_exception, Parts, Gateway, Result,
}
use erp_security.Gateway.Upstream.{forward}

-- A request at the last phase of the middleware.
pub record Proxied : Type 0 where
  pub request : Request
  pub surroundings : Surroundings
  pub client_ip : String
  pub principal : String
  pub decision : Decision

module _ (parts : Parts) where
  abbrev pub proxy : Proxied → Gateway parts → Gateway parts × Result
  proxy v g = forward parts v.request v.surroundings v.client_ip v.principal v.decision g

  unfoldable pub proxy_all : List Proxied → Gateway parts → Gateway parts
  proxy_all [] g = g
  proxy_all (v ∷ vs) g = proxy_all vs (proxy v g).0

  -- A request whose first attempt finds the event loop closed, and whose retry raises.
  abbrev pub FailsTwice : Proxied → Type 0
  FailsTwice v =
      (v.surroundings.first_attempt ≡ event_loop_closed)
      × (v.surroundings.second_attempt ≡ other_exception)

  -- A closed breaker admits a request and stays as it is.
  pub admits :
      (now : ℕ) (b : CircuitBreaker)
      → b.state ≡ closed
      → ((allow_request now b).0 ≡ b) × ((allow_request now b).1 ≡ true)
  unfolding allow_request
  admits now b c = (ground arith, ground arith)
