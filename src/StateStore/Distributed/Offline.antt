-- ===== src/StateStore/Distributed/Offline.antt =====
-- Class DistributedStateStore of gateway/state_store.py, while Redis cannot be reached, as the store
-- that the mitigation engine relies on. Its reads only move the time of the last attempt to connect,
-- which decides nothing while every attempt fails; they are read at one clock reading.
use erp_security.Prelude.{
  ℕ, String, Option, none, some, true, false, ◌&&◌, ◌==◌, ◌≡◌, ◌∙◌, sym, ap, arith, if◌then◌else◌,
}
use erp_security.StateStore
use erp_security.StateStore.Interface.{SharedStore}
use erp_security.StateStore.Laws.{
  get-set_hash_entry, get-delete_hash_entry, is_member-add, is_member-remove,
}
use erp_security.StateStore.Memory.{get-add, get-remove, member-set, member-delete}
use erp_security.StateStore.Distributed.{
  Redis, DistributedStateStore, add_to_set, remove_from_set, is_member, set_hash_entry,
  get_hash_entry, delete_hash_entry,
}

module _ {V : Type 0} (redis : Redis V)
    (unreachable : (now : ℕ) (server : redis.Server) → (redis.connect now server).0 ≡ false)
    (now : ℕ) where
  -- A store that has no connection.
  pub record OfflineStore : Type 0 where
    pub store : DistributedStateStore redis
    pub unavailable : store.redis_available ≡ false

  -- An operation that writes what the in-memory store writes, and makes no connection.
  abbrev pub Writes :
      (DistributedStateStore redis → DistributedStateStore redis)
      → (StateStore.InMemoryStateStore V → StateStore.InMemoryStateStore V)
      → Type 0
  Writes f m =
      (s : DistributedStateStore redis)
      → s.redis_available ≡ false
      → ((f s).redis_available ≡ false) × ((f s).fallback ≡ m s.fallback)

  pub set-Writes :
      (h k : String) (v : V) (ttl : Option ℕ)
      → Writes (set_hash_entry redis now h k v ttl) (StateStore.set_hash_entry h k v)
  unfolding set_hash_entry
  set-Writes h k v ttl s x =
      (ground (arith, unreachable now s.server), ground (arith, unreachable now s.server))

  pub delete-Writes :
      (h k : String)
      → Writes
          (λ s. (delete_hash_entry redis now h k s).0)
          (λ m. (StateStore.delete_hash_entry h k m).0)
  unfolding delete_hash_entry
  delete-Writes h k s x =
      (ground (arith, unreachable now s.server), ground (arith, unreachable now s.server))

  pub add-Writes : (n m : String) → Writes (add_to_set redis now n m) (StateStore.add_to_set n m)
  unfolding add_to_set
  add-Writes n m s x =
      (ground (arith, unreachable now s.server), ground (arith, unreachable now s.server))

  pub remove-Writes :
      (n m : String)
      → Writes
          (λ s. (remove_from_set redis now n m s).0)
          (λ t. (StateStore.remove_from_set n m t).0)
  unfolding remove_from_set
  remove-Writes n m s x =
      (ground (arith, unreachable now s.server), ground (arith, unreachable now s.server))

  pub entry-read :
      (h k : String) (s : OfflineStore)
      → (get_hash_entry redis now h k s.store).1 ≡ StateStore.get_hash_entry h k s.store.fallback
  unfolding get_hash_entry
  entry-read h k s = ground (arith, unreachable now s.store.server, s.unavailable)

  pub member-read :
      (n m : String) (s : OfflineStore)
      → (is_member redis now n m s.store).1 ≡ StateStore.is_member n m s.store.fallback
  unfolding is_member
  member-read n m s = ground (arith, unreachable now s.store.server, s.unavailable)

  abbrev pub lift :
      (f : DistributedStateStore redis → DistributedStateStore redis)
      → (m : StateStore.InMemoryStateStore V → StateStore.InMemoryStateStore V) → Writes f m
      → OfflineStore
      → OfflineStore
  lift f m w s = record { store = f s.store; unavailable = (w s.store s.unavailable).0 }

  -- What is read after a write is what the in-memory store reads after it.
  pub entry-after :
      (f : DistributedStateStore redis → DistributedStateStore redis)
      (m : StateStore.InMemoryStateStore V → StateStore.InMemoryStateStore V) (w : Writes f m)
      (s : OfflineStore) (h k : String)
      → (get_hash_entry redis now h k (f s.store)).1
        ≡ StateStore.get_hash_entry h k (m s.store.fallback)
  entry-after f m w s h k =
      entry-read h k (lift f m w s) ∙ ap (StateStore.get_hash_entry h k) (w s.store s.unavailable).1

  pub member-after :
      (f : DistributedStateStore redis → DistributedStateStore redis)
      (m : StateStore.InMemoryStateStore V → StateStore.InMemoryStateStore V) (w : Writes f m)
      (s : OfflineStore) (n x : String)
      → (is_member redis now n x (f s.store)).1 ≡ StateStore.is_member n x (m s.store.fallback)
  member-after f m w s n x =
      member-read n x (lift f m w s) ∙ ap (StateStore.is_member n x) (w s.store s.unavailable).1

  unfoldable pub offline_store : SharedStore V
  offline_store = record {
    Store = OfflineStore;
    get_hash_entry = λ h k s. (get_hash_entry redis now h k s.store).1;
    set_hash_entry = λ h k v ttl s.
        lift (set_hash_entry redis now h k v ttl) (StateStore.set_hash_entry h k v)
          (set-Writes h k v ttl) s;
    delete_hash_entry = λ h k s.
        lift (λ x. (delete_hash_entry redis now h k x).0)
          (λ x. (StateStore.delete_hash_entry h k x).0) (delete-Writes h k) s;
    is_member = λ n m s. (is_member redis now n m s.store).1;
    add_to_set =
        λ n m s. lift (add_to_set redis now n m) (StateStore.add_to_set n m) (add-Writes n m) s;
    remove_from_set = λ n m s.
        lift (λ x. (remove_from_set redis now n m x).0) (λ x. (StateStore.remove_from_set n m x).0)
          (remove-Writes n m) s;
    get_hash_entry-set_hash_entry = λ h k v ttl s h' k'.
        entry-after (set_hash_entry redis now h k v ttl) (StateStore.set_hash_entry h k v)
          (set-Writes h k v ttl) s h' k'
        ∙ get-set_hash_entry h k v s.store.fallback h' k'
        ∙ ap (λ o. if (h == h') && (k == k') then some v else o) (sym (entry-read h' k' s));
    get_hash_entry-delete_hash_entry = λ h k s h' k'.
        entry-after (λ x. (delete_hash_entry redis now h k x).0)
          (λ x. (StateStore.delete_hash_entry h k x).0) (delete-Writes h k) s h' k'
        ∙ get-delete_hash_entry h k s.store.fallback h' k'
        ∙ ap (λ o. if (h == h') && (k == k') then none else o) (sym (entry-read h' k' s));
    get_hash_entry-add_to_set = λ n m s h k.
        entry-after (add_to_set redis now n m) (StateStore.add_to_set n m) (add-Writes n m) s h k
        ∙ get-add n m s.store.fallback h k
        ∙ sym (entry-read h k s);
    get_hash_entry-remove_from_set = λ n m s h k.
        entry-after (λ x. (remove_from_set redis now n m x).0)
          (λ x. (StateStore.remove_from_set n m x).0) (remove-Writes n m) s h k
        ∙ get-remove n m s.store.fallback h k
        ∙ sym (entry-read h k s);
    is_member-add_to_set = λ n m s n' m'.
        member-after (add_to_set redis now n m) (StateStore.add_to_set n m) (add-Writes n m) s n' m'
        ∙ is_member-add n m s.store.fallback n' m'
        ∙ ap (λ b. if (n == n') && (m == m') then true else b) (sym (member-read n' m' s));
    is_member-remove_from_set = λ n m s n' m'.
        member-after (λ x. (remove_from_set redis now n m x).0)
          (λ x. (StateStore.remove_from_set n m x).0) (remove-Writes n m) s n' m'
        ∙ is_member-remove n m s.store.fallback n' m'
        ∙ ap (λ b. if (n == n') && (m == m') then false else b) (sym (member-read n' m' s));
    is_member-set_hash_entry = λ h k v ttl s n m.
        member-after (set_hash_entry redis now h k v ttl) (StateStore.set_hash_entry h k v)
          (set-Writes h k v ttl) s n m
        ∙ member-set h k v s.store.fallback n m
        ∙ sym (member-read n m s);
    is_member-delete_hash_entry = λ h k s n m.
        member-after (λ x. (delete_hash_entry redis now h k x).0)
          (λ x. (StateStore.delete_hash_entry h k x).0) (delete-Writes h k) s n m
        ∙ member-delete h k s.store.fallback n m
        ∙ sym (member-read n m s);
  }
