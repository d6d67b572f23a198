-- ===== src/StateStore/Tests.antt =====
-- Runs of the stores of gateway/state_store.py.
use erp_security.Prelude.{
  ℕ, suc, zero, ◌+◌, ◌*◌, Option, none, some, Bool, true, false, ◌≡◌, refl, arith, List, [], ◌∷◌,
  ltb,
}
use erp_security.Prelude.Dict.{get}
use erp_security.StateStore.{InMemoryStateStore, second, set_nonce_nx}
use erp_security.StateStore.Nonces.{Use, use_all, single_use}
use erp_security.StateStore.Distributed
use erp_security.StateStore.Distributed.{Redis, DistributedStateStore, init}
use erp_security.StateStore.Distributed.Standalone.{
  Op, nonce, add, set_entry, entry, run, memory_run, run-standalone,
}
use erp_security.StateStore.Distributed.Failover.{failover_accepts_again}

abbrev nothing_seen : InMemoryStateStore ℕ
nothing_seen = record { nonces = []; sets = []; hashes = [] }

abbrev other_use : Use
other_use = record { now = 5; key = "b"; ttl_seconds = 1 }

single_use_example :
    (set_nonce_nx 10 "a" 300 (use_all (other_use ∷ []) (set_nonce_nx 2 "a" 1 nothing_seen).0)).1
    ≡ ltb (2 + 1 * second) 10
unfolding get set_nonce_nx
single_use_example = single_use 2 1 "a" (other_use ∷ []) 10 300 nothing_seen refl (omega arith, tt)

-- A server that takes one nonce and fails after that, and cannot be connected to again.
abbrev take_one : ℕ → Option Bool × ℕ
take_one zero = (some true, 1)
take_one (suc n) = (none, suc n)

abbrev flaky : Redis ℕ
flaky = record {
  Server = ℕ;
  connect = λ now n. (false, n);
  set_nx = λ key ttl n. take_one n;
  sadd = λ name m n. (none, n);
  srem = λ name m n. (none, n);
  sismember = λ name m n. (none, n);
  smembers = λ name n. (none, n);
  hset = λ name key value n. (none, n);
  expire = λ name ttl n. (none, n);
  hget = λ name key n. (none, n);
  hgetall = λ name n. (none, n);
  hdel = λ name key n. (none, n);
  keys = λ pattern n. (none, n);
  delete = λ names n. (none, n);
  dumps = λ v. "";
  loads = λ text. none;
}

abbrev store : Bool → DistributedStateStore flaky
store up = record {
  fallback = nothing_seen;
  redis_client = up;
  redis_available = up;
  last_check = 0;
  server = 0;
}

failover_accepts_again_example :
    let (s', accepted) = Distributed.set_nonce_nx flaky 2 "a" 300 (store true) in
    (accepted ≡ true) × ((Distributed.set_nonce_nx flaky 3 "a" 300 s').1 ≡ true)
unfolding get
failover_accepts_again_example =
    failover_accepts_again flaky 2 3 300 "a" (store true) refl refl refl refl refl

abbrev calls : List (ℕ × Op ℕ)
calls =
    (2, nonce "a" 300)
    ∷ (3, add "names" "b")
    ∷ (4, set_entry "table" "k" 7 none)
    ∷ (400 * second, entry "table" "k")
    ∷ (400 * second, nonce "a" 300)
    ∷ []

run-standalone_example :
    let (s', rs) = run flaky calls (store false) in
    let (m', rs') = memory_run calls nothing_seen in (s'.fallback ≡ m') × (rs ≡ rs')
run-standalone_example = run-standalone flaky (λ now n. refl) calls (store false) refl
