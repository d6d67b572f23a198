-- ===== src/StateStore/Distributed/Standalone.antt =====
-- The store of gateway/state_store.py where Redis cannot be reached: the in-memory store alone.
use erp_security.Prelude.{ℕ, String, Option, Bool, false, ◌≡◌, List, [], ◌∷◌, refl, arith}
use erp_security.Prelude.Dict.{Dict}
use erp_security.StateStore
use erp_security.StateStore.{InMemoryStateStore}
use erp_security.StateStore.Distributed.{
  reset_state, Redis, DistributedStateStore, set_nonce_nx, add_to_set, remove_from_set, is_member,
  get_set_members, set_hash_entry, get_hash_entry, get_all_hash_entries, delete_hash_entry,
}

-- The calls of a store, and what they return.
pub data Op (V : Type 0) : Type 0 where
  nonce : String → ℕ → Op V
  add remove member : String → String → Op V
  members entries : String → Op V
  set_entry : String → String → V → Option ℕ → Op V
  entry delete : String → String → Op V
  reset : Op V

pub data Reply (V : Type 0) : Type 0 where
  done : Reply V
  flag : Bool → Reply V
  texts : List String → Reply V
  value : Option V → Reply V
  values : Dict V → Reply V

module _ {V : Type 0} where
  pub memory_call : ℕ → Op V → InMemoryStateStore V → InMemoryStateStore V × Reply V
  memory_call now (nonce k ttl) s =
      let (s', r) = StateStore.set_nonce_nx now k ttl s in (s', flag r)
  memory_call now (add n m) s = (StateStore.add_to_set n m s, done)
  memory_call now (remove n m) s = let (s', r) = StateStore.remove_from_set n m s in (s', flag r)
  memory_call now (member n m) s = (s, flag (StateStore.is_member n m s))
  memory_call now (members n) s = (s, texts (StateStore.get_set_members n s))
  memory_call now (set_entry h k v ttl) s = (StateStore.set_hash_entry h k v s, done)
  memory_call now (entry h k) s = (s, value (StateStore.get_hash_entry h k s))
  memory_call now (entries h) s = (s, values (StateStore.get_all_hash_entries h s))
  memory_call now (delete h k) s = let (s', r) = StateStore.delete_hash_entry h k s in (s', flag r)
  memory_call now reset s = (StateStore.clear s, done)

  pub memory_run : List (ℕ × Op V) → InMemoryStateStore V → InMemoryStateStore V × List (Reply V)
  memory_run [] s = (s, [])
  memory_run ((now, op) ∷ ops) s =
      let (s₁, r) = memory_call now op s in let (s₂, rs) = memory_run ops s₁ in (s₂, r ∷ rs)

module _ {V : Type 0} (redis : Redis V) where
  pub call : ℕ → Op V → DistributedStateStore redis → DistributedStateStore redis × Reply V
  call now (nonce k ttl) s = let (s', r) = set_nonce_nx redis now k ttl s in (s', flag r)
  call now (add n m) s = (add_to_set redis now n m s, done)
  call now (remove n m) s = let (s', r) = remove_from_set redis now n m s in (s', flag r)
  call now (member n m) s = let (s', r) = is_member redis now n m s in (s', flag r)
  call now (members n) s = let (s', r) = get_set_members redis now n s in (s', texts r)
  call now (set_entry h k v ttl) s = (set_hash_entry redis now h k v ttl s, done)
  call now (entry h k) s = let (s', r) = get_hash_entry redis now h k s in (s', value r)
  call now (entries h) s = let (s', r) = get_all_hash_entries redis now h s in (s', values r)
  call now (delete h k) s = let (s', r) = delete_hash_entry redis now h k s in (s', flag r)
  call now reset s = (reset_state redis now s, done)

  pub run :
      List (ℕ × Op V) → DistributedStateStore redis → DistributedStateStore redis × List (Reply V)
  run [] s = (s, [])
  run ((now, op) ∷ ops) s = let (s₁, r) = call now op s in let (s₂, rs) = run ops s₁ in (s₂, r ∷ rs)

module _ {V : Type 0} (redis : Redis V)
    (unreachable : (now : ℕ) (server : redis.Server) → (redis.connect now server).0 ≡ false) where
  call-standalone :
      (now : ℕ) (op : Op V) (s : DistributedStateStore redis)
      → s.redis_available ≡ false
      → let (s', r) = call redis now op s in
        let (m', r') = memory_call now op s.fallback in
        (s'.redis_available ≡ false) × (s'.fallback ≡ m') × (r ≡ r')
  unfolding call memory_call set_nonce_nx add_to_set remove_from_set is_member get_set_members
      set_hash_entry get_hash_entry get_all_hash_entries delete_hash_entry reset_state
  call-standalone now (nonce k ttl) s h = ground (arith, unreachable now s.server)
  call-standalone now (add n m) s h = ground (arith, unreachable now s.server)
  call-standalone now (remove n m) s h = ground (arith, unreachable now s.server)
  call-standalone now (member n m) s h = ground (arith, unreachable now s.server)
  call-standalone now (members n) s h = ground (arith, unreachable now s.server)
  call-standalone now (set_entry hn k v ttl) s h = ground (arith, unreachable now s.server)
  call-standalone now (entry hn k) s h = ground (arith, unreachable now s.server)
  call-standalone now (entries hn) s h = ground (arith, unreachable now s.server)
  call-standalone now (delete hn k) s h = ground (arith, unreachable now s.server)
  call-standalone now reset s h = ground (arith, unreachable now s.server)

  -- While Redis cannot be reached the distributed store is the in-memory store: over any run of
  -- calls it returns what the in-memory store alone would return, and holds what that would hold.
  pub run-standalone :
      (ops : List (ℕ × Op V)) (s : DistributedStateStore redis)
      → s.redis_available ≡ false
      → let (s', rs) = run redis ops s in
        let (m', rs') = memory_run ops s.fallback in (s'.fallback ≡ m') × (rs ≡ rs')
  unfolding run memory_run
  run-standalone [] s h = (refl, refl)
  run-standalone ((now, op) ∷ ops) s h =
      let (available, same, reply) = call-standalone now op s h in
      let (held, replies) = run-standalone ops (call redis now op s).0 available in
      (rw (← same) held, rw (reply, ← same) (cc))
