-- ===== src/RateLimiter/Tests.antt =====
-- Runs of the limiter of gateway/rate_limiter.py.
use erp_security.Prelude.{
  ℕ, suc, ◌*◌, concat, String, none, false, ◌≡◌, refl, arith, List, [], ◌∷◌, length,
}
use erp_security.Prelude.Window.{recent}
use erp_security.RateLimiter.{RateClient, rate_limiter, check_rate, rate_score}
use erp_security.RateLimiter.Window.{Hit, times_of}
use erp_security.RateLimiter.Outage.{keyed_all, limit_all, outage_keeps_limit}
use erp_security.StateStore.{second}

abbrev hit : ℕ → String → Hit
hit now key = record { now = now; key = key }

abbrev hits : List Hit
hits = hit 1 "a" ∷ hit 5 "b" ∷ hit 8 "a" ∷ []

-- A client that never connects.
abbrev away : RateClient
away = record {
  Server = Unit {0};
  connect = λ now server. (false, server);
  incr = λ key ttl server. (none, server);
}

outage_keeps_limit_example :
    let n =
      suc (length (recent (60 * second) 10 (times_of (concat "rate:" "a") (keyed_all hits)))) in
    let (l', count, score) = check_rate away 10 "a" (limit_all away hits (rate_limiter away tt)) in
    (count ≡ n) × (score ≡ rate_score n)
outage_keeps_limit_example =
    outage_keeps_limit away (λ now server. refl) tt hits 10 "a"
      (omega arith, (omega arith, (omega arith, tt)))
