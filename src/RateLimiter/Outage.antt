-- ===== src/RateLimiter/Outage.antt =====
-- The limiter of gateway/rate_limiter.py while Redis cannot be reached.
use erp_security.Prelude.{
  ℕ, suc, ◌*◌, ◌≤◌, String, concat, false, ◌≡◌, refl, ap, ◌∙◌, arith, List, [], ◌∷◌, length, All,
}
use erp_security.Prelude.Window.{recent}
use erp_security.StateStore.{second}
use erp_security.RateLimiter.{
  check_and_increment, rate_score, RateClient, RateLimiter, rate_limiter, check_rate,
}
use erp_security.RateLimiter.Window.{Hit, count_all, times_of, counts_window}

-- A request under the key that the limiter counts it by.
abbrev pub keyed : Hit → Hit
keyed h = record { now = h.now; key = concat "rate:" h.key }

abbrev pub keyed_all : List Hit → List Hit
keyed_all [] = []
keyed_all (h ∷ hs) = keyed h ∷ keyed_all hs

keyed_all-past :
    (now : ℕ) (hs : List Hit) → All (λ h. h.now ≤ now) hs → All (λ h. h.now ≤ now) (keyed_all hs)
keyed_all-past now [] past = tt
keyed_all-past now (h ∷ hs) past = (past.0, keyed_all-past now hs past.1)

module _ (client : RateClient) where
  unfoldable pub limit_all : List Hit → RateLimiter client → RateLimiter client
  limit_all [] l = l
  limit_all (h ∷ hs) l = limit_all hs (check_rate client h.now h.key l).0

module _ (client : RateClient)
    (unreachable : (now : ℕ) (server : client.Server) → (client.connect now server).0 ≡ false) where
  check_rate-local :
      (now : ℕ) (key : String) (l : RateLimiter client)
      → l.redis_available ≡ false
      → let (l', count, score) = check_rate client now key l in
        let (m', count') = check_and_increment now (concat "rate:" key) l.fallback in
        (l'.redis_available ≡ false)
        × (l'.fallback ≡ m')
        × (count ≡ count')
        × (score ≡ rate_score count')
  unfolding check_rate
  check_rate-local now key l away = ground (arith, unreachable now l.server)

  limit_all-local :
      (hs : List Hit) (l : RateLimiter client)
      → l.redis_available ≡ false
      → ((limit_all client hs l).redis_available ≡ false)
        × ((limit_all client hs l).fallback ≡ count_all (keyed_all hs) l.fallback)
  unfolding limit_all count_all
  limit_all-local [] l away = (away, refl)
  limit_all-local (h ∷ hs) l away =
      let (still, same, count, score) = check_rate-local h.now h.key l away in
      let (away', same') = limit_all-local hs (check_rate client h.now h.key l).0 still in
      (away', same' ∙ ap (count_all (keyed_all hs)) same)

  -- An outage of Redis does not lift the limit: of a new limiter whose Redis cannot be reached, after
  -- any requests none of them later than now, a request is told the number of requests for its key
  -- within the last minute, itself included, and the score of that number.
  pub outage_keeps_limit :
      (server : client.Server) (hs : List Hit) (now : ℕ) (key : String)
      → All (λ h. h.now ≤ now) hs
      → let n =
          suc (length (recent (60 * second) now (times_of (concat "rate:" key) (keyed_all hs)))) in
        let (l', count, score) =
          check_rate client now key (limit_all client hs (rate_limiter client server)) in
        (count ≡ n) × (score ≡ rate_score n)
  unfolding rate_limiter
  outage_keeps_limit server hs now key past =
      let l : RateLimiter client = rate_limiter client server in
      let (away, same) = limit_all-local hs l refl in
      let (still, held, count, score) = check_rate-local now key (limit_all client hs l) away in
      let counted =
        counts_window (60 * second) (keyed_all hs) (concat "rate:" key) now
          (keyed_all-past now hs past) in
      let told = ap (λ m. (check_and_increment now (concat "rate:" key) m).1) same ∙ counted in
      (count ∙ told, score ∙ ap rate_score told)
