-- ===== src/StateStore/Interface.antt =====
-- What the clients of a state store rely on: the operations of class DistributedStateStore
-- (gateway/state_store.py) that the mitigation engine calls, and how a read sees the writes before
-- it. The in-memory store has these laws (StateStore/Memory), and DistributedStateStore while
-- Redis cannot be reached (StateStore/Distributed/Offline). Over a Redis that answers they hold
-- only until an entry expires, since `expire` there is of a whole hash, and while no call fails: a
-- theorem over a `SharedStore` says nothing of those runs.
use erp_security.Prelude.{
  ℕ, String, Option, none, some, Bool, true, false, ◌&&◌, ◌==◌, ◌≡◌, if◌then◌else◌,
}

pub record SharedStore (V : Type 0) : Type 1 where
  pub Store : Type 0
  pub get_hash_entry : String → String → Store → Option V
  pub set_hash_entry : String → String → V → Option ℕ → Store → Store
  pub delete_hash_entry : String → String → Store → Store
  pub is_member : String → String → Store → Bool
  pub add_to_set : String → String → Store → Store
  pub remove_from_set : String → String → Store → Store
  pub get_hash_entry-set_hash_entry :
      (h k : String) (v : V) (ttl : Option ℕ) (s : Store) (h' k' : String)
      → get_hash_entry h' k' (set_hash_entry h k v ttl s)
        ≡ (if (h == h') && (k == k') then some v else get_hash_entry h' k' s)
  pub get_hash_entry-delete_hash_entry :
      (h k : String) (s : Store) (h' k' : String)
      → get_hash_entry h' k' (delete_hash_entry h k s)
        ≡ (if (h == h') && (k == k') then none else get_hash_entry h' k' s)
  pub get_hash_entry-add_to_set :
      (n m : String) (s : Store) (h k : String)
      → get_hash_entry h k (add_to_set n m s) ≡ get_hash_entry h k s
  pub get_hash_entry-remove_from_set :
      (n m : String) (s : Store) (h k : String)
      → get_hash_entry h k (remove_from_set n m s) ≡ get_hash_entry h k s
  pub is_member-add_to_set :
      (n m : String) (s : Store) (n' m' : String)
      → is_member n' m' (add_to_set n m s)
        ≡ (if (n == n') && (m == m') then true else is_member n' m' s)
  pub is_member-remove_from_set :
      (n m : String) (s : Store) (n' m' : String)
      → is_member n' m' (remove_from_set n m s)
        ≡ (if (n == n') && (m == m') then false else is_member n' m' s)
  pub is_member-set_hash_entry :
      (h k : String) (v : V) (ttl : Option ℕ) (s : Store) (n m : String)
      → is_member n m (set_hash_entry h k v ttl s) ≡ is_member n m s
  pub is_member-delete_hash_entry :
      (h k : String) (s : Store) (n m : String)
      → is_member n m (delete_hash_entry h k s) ≡ is_member n m s

-- The laws as lemmas over a store, for the sets of the tactics.
module _ {V : Type 0} (st : SharedStore V) where
  pub hash-set :
      (h k : String) (v : V) (ttl : Option ℕ) (s : st.Store) (h' k' : String)
      → st.get_hash_entry h' k' (st.set_hash_entry h k v ttl s)
        ≡ (if (h == h') && (k == k') then some v else st.get_hash_entry h' k' s)
  hash-set = st.get_hash_entry-set_hash_entry

  pub hash-delete :
      (h k : String) (s : st.Store) (h' k' : String)
      → st.get_hash_entry h' k' (st.delete_hash_entry h k s)
        ≡ (if (h == h') && (k == k') then none else st.get_hash_entry h' k' s)
  hash-delete = st.get_hash_entry-delete_hash_entry

  pub hash-add :
      (n m : String) (s : st.Store) (h k : String)
      → st.get_hash_entry h k (st.add_to_set n m s) ≡ st.get_hash_entry h k s
  hash-add = st.get_hash_entry-add_to_set

  pub hash-remove :
      (n m : String) (s : st.Store) (h k : String)
      → st.get_hash_entry h k (st.remove_from_set n m s) ≡ st.get_hash_entry h k s
  hash-remove = st.get_hash_entry-remove_from_set

  pub member-add :
      (n m : String) (s : st.Store) (n' m' : String)
      → st.is_member n' m' (st.add_to_set n m s)
        ≡ (if (n == n') && (m == m') then true else st.is_member n' m' s)
  member-add = st.is_member-add_to_set

  pub member-remove :
      (n m : String) (s : st.Store) (n' m' : String)
      → st.is_member n' m' (st.remove_from_set n m s)
        ≡ (if (n == n') && (m == m') then false else st.is_member n' m' s)
  member-remove = st.is_member-remove_from_set

  pub member-set :
      (h k : String) (v : V) (ttl : Option ℕ) (s : st.Store) (n m : String)
      → st.is_member n m (st.set_hash_entry h k v ttl s) ≡ st.is_member n m s
  member-set = st.is_member-set_hash_entry

  pub member-delete :
      (h k : String) (s : st.Store) (n m : String)
      → st.is_member n m (st.delete_hash_entry h k s) ≡ st.is_member n m s
  member-delete = st.is_member-delete_hash_entry

pub ruleset shared_laws = (
  hash-set, hash-delete, hash-add, hash-remove, member-add, member-remove, member-set,
  member-delete,
)
