-- ===== src/StateStore/Distributed/Failover.antt =====
-- A failure of Redis between two uses of a nonce (gateway/state_store.py, `set_nonce_nx`).
use erp_security.Prelude.{ℕ, String, concat, none, some, true, ◌≡◌, arith}
use erp_security.Prelude.Dict.{get}
use erp_security.StateStore.Distributed.{Redis, DistributedStateStore, set_nonce_nx}

module _ {V : Type 0} (redis : Redis V) where
  -- A nonce that Redis accepted is accepted a second time when a later call of Redis fails, since
  -- the local store never heard of it.
  pub failover_accepts_again :
      (now later ttl : ℕ) (key : String) (s : DistributedStateStore redis)
      → s.redis_client ≡ true
      → s.redis_available ≡ true
      → get s.fallback.nonces key ≡ none
      → (redis.set_nx (concat "nonce:" key) ttl s.server).0 ≡ some true
      → (redis.set_nx
          (concat "nonce:" key)
          ttl
          (redis.set_nx (concat "nonce:" key) ttl s.server).1).0
        ≡ none
      → let (s', accepted) = set_nonce_nx redis now key ttl s in
        (accepted ≡ true) × ((set_nonce_nx redis later key ttl s').1 ≡ true)
  unfolding set_nonce_nx
  failover_accepts_again now later ttl key s c a l first second = ground arith
