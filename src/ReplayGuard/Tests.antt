-- ===== src/ReplayGuard/Tests.antt =====
-- Runs of the guard of gateway/replay_guard.py.
use erp_security.Prelude.{ℕ, String, Option, none, some, true, false, ◌≡◌, refl, arith, [], ◌∷◌}
use erp_security.Prelude.Dict.{get}
use erp_security.StateStore.{set_nonce_nx}
use erp_security.StateStore.Distributed
use erp_security.StateStore.Distributed.{Redis, with_redis, get_redis}
use erp_security.ReplayGuard.{
  Timestamp, moment, Request, ReplayGuard, check_freshness, check_key, validate_request,
}
use erp_security.ReplayGuard.Replays.{validate_all, replays_refused}

-- A server that cannot be connected to.
abbrev away : Redis ℕ
away = record {
  Server = Unit {0};
  connect = λ now s. (false, s);
  set_nx = λ key ttl s. (none, s);
  sadd = λ name m s. (none, s);
  srem = λ name m s. (none, s);
  sismember = λ name m s. (none, s);
  smembers = λ name s. (none, s);
  hset = λ name key value s. (none, s);
  expire = λ name ttl s. (none, s);
  hget = λ name key s. (none, s);
  hgetall = λ name s. (none, s);
  hdel = λ name key s. (none, s);
  keys = λ pattern s. (none, s);
  delete = λ names s. (none, s);
  dumps = λ v. "";
  loads = λ text. none;
}

abbrev guard : ReplayGuard away
guard = record {
  max_skew_seconds = 300;
  state_store = record {
    fallback = record { nonces = []; sets = []; hashes = [] };
    redis_client = false;
    redis_available = false;
    last_check = 0;
    server = tt;
  };
}

abbrev request : String → Option Timestamp → Request
request nonce timestamp = record {
  nonce = some nonce;
  idempotency_key = none;
  timestamp = timestamp;
}

replays_refused_example :
    (validate_request away 9 (request "a" none) (
      validate_all away
        ((7, request "b" none) ∷ [])
        (validate_request away 5 (request "a" (some (moment 4))) guard).0)).1.is_replay
    ≡ true
unfolding validate_request check_freshness check_key Distributed.set_nonce_nx with_redis get_redis
    set_nonce_nx get
replays_refused_example =
    replays_refused away (λ now server. refl) 5 9 (request "a" (some (moment 4))) (request "a" none)
      "a" ((7, request "b" none) ∷ []) guard refl refl refl refl (omega arith, tt) (omega arith)
