-- ===== src/RateLimiter.antt =====
-- The rate limiter of gateway/rate_limiter.py: class InMemoryRateLimiter, and class RateLimiter
-- that asks Redis first. A clock reading and a window are numbers of microseconds. The Redis client
-- is a parameter; `none` is an exception of its pipeline. Host and port only reach the client, and
-- locks are left out: a method runs alone.
pub mod Window
pub mod Outage
mod Tests
use erp_security.Prelude.{
  ℕ, suc, ◌+◌, ◌*◌, String, concat, Option, none, some, Bool, true, false, not, ◌&&◌, ltb, leb,
  if◌then◌else◌, List, [], ◌∷◌, ◌++◌, get_or, length,
}
use erp_security.Prelude.Dict.{Dict, get, put}
use erp_security.Prelude.Window.{recent}
use erp_security.StateStore.{second}

pub record InMemoryRateLimiter : Type 0 where
  pub window : ℕ
  pub records : Dict (List ℕ)

-- `self._records[key]` on a `defaultdict(list)`.
abbrev pub timestamps : InMemoryRateLimiter → String → List ℕ
timestamps r key = get_or (get r.records key) []

unfoldable pub check_and_increment : ℕ → String → InMemoryRateLimiter → InMemoryRateLimiter × ℕ
unfolding recent
check_and_increment now key r =
    let ts = recent r.window now (timestamps r key) ++ (now ∷ []) in
    (record r { records = put r.records key ts }, length ts)

-- The score of `check_rate`.
unfoldable pub rate_score : ℕ → ℕ
rate_score count =
    if leb count 100
    then 0
    else if leb count 300
    then 25
    else if leb count 600
    then 50
    else if leb count 1000
    then 75
    else 100

-- The client library: an attempt to connect, and the pipeline of `incr` and `expire`.
pub record RateClient : Type 1 where
  pub Server : Type 0
  pub connect : ℕ → Server → Bool × Server
  pub incr : String → ℕ → Server → Option ℕ × Server

module _ (client : RateClient) where
  pub record RateLimiter : Type 0 where
    pub fallback : InMemoryRateLimiter
    pub redis_client : Bool
    pub redis_available : Bool
    pub last_check : ℕ
    pub server : client.Server

  -- `RateLimiter.__init__`.
  unfoldable pub rate_limiter : client.Server → RateLimiter
  rate_limiter server = record {
    fallback = record { window = 60 * second; records = [] };
    redis_client = false;
    redis_available = false;
    last_check = 0;
    server = server;
  }

  -- `_get_redis`: whether a client is at hand, after an attempt to connect at most every 300 s.
  unfoldable pub get_redis : ℕ → RateLimiter → Bool × RateLimiter
  get_redis now l =
      if l.redis_available && l.redis_client
      then (true, l)
      else if not l.redis_available && ltb now (l.last_check + 300 * second)
      then (false, l)
      else let (up, server') = client.connect now l.server in
        (
          up,
          record l { redis_client = up; redis_available = up; last_check = now; server = server' },
        )

  -- The count of the in-memory limiter.
  unfoldable pub count_locally : ℕ → String → RateLimiter → RateLimiter × ℕ
  unfolding check_and_increment
  count_locally now rate_key l =
      let (fallback', count) = check_and_increment now rate_key l.fallback in
      (record l { fallback = fallback' }, count)

  unfoldable pub count_request : ℕ → String → RateLimiter → RateLimiter × ℕ
  unfolding get_redis count_locally
  count_request now rate_key l =
      let (up, l') = get_redis now l in
      if up
      then (let (result, server') = client.incr rate_key 60 l'.server in
          elim result [
            | some count ↦ (record l' { server = server' }, count)
            | none ↦
                count_locally now rate_key (record l' { server = server'; redis_available = false })
          ])
      else count_locally now rate_key l'

  unfoldable pub check_rate : ℕ → String → RateLimiter → RateLimiter × ℕ × ℕ
  unfolding count_request rate_score
  check_rate now key l =
      let (l', count) = count_request now (concat "rate:" key) l in (l', count, rate_score count)
