-- ===== src/StateStore/Memory.antt =====
-- Class InMemoryStateStore of gateway/state_store.py as the store that the mitigation engine relies
-- on; a time to live of an entry is not kept, as in the source.
use erp_security.Prelude.{String, ◌≡◌, arith, refl}
use erp_security.StateStore.{
  InMemoryStateStore, is_member, add_to_set, remove_from_set, get_hash_entry, set_hash_entry,
  delete_hash_entry,
}
use erp_security.StateStore.Interface.{SharedStore}
use erp_security.StateStore.Laws.{
  get-set_hash_entry, get-delete_hash_entry, is_member-add, is_member-remove,
}

module _ {V : Type 0} where
  pub get-remove :
      (n m : String) (s : InMemoryStateStore V) (h k : String)
      → get_hash_entry h k (remove_from_set n m s).0 ≡ get_hash_entry h k s
  unfolding remove_from_set get_hash_entry
  get-remove n m s h k = ground arith

  pub member-delete :
      (h k : String) (s : InMemoryStateStore V) (n m : String)
      → is_member n m (delete_hash_entry h k s).0 ≡ is_member n m s
  unfolding delete_hash_entry is_member
  member-delete h k s n m = ground arith

  pub get-add :
      (n m : String) (s : InMemoryStateStore V) (h k : String)
      → get_hash_entry h k (add_to_set n m s) ≡ get_hash_entry h k s
  unfolding add_to_set get_hash_entry
  get-add n m s h k = refl

  pub member-set :
      (h k : String) (v : V) (s : InMemoryStateStore V) (n m : String)
      → is_member n m (set_hash_entry h k v s) ≡ is_member n m s
  unfolding set_hash_entry is_member
  member-set h k v s n m = refl

-- The in-memory store keeps the laws of a shared store.
unfoldable pub memory_store : (V : Type 0) → SharedStore V
memory_store V = record {
  Store = InMemoryStateStore V;
  get_hash_entry = get_hash_entry;
  set_hash_entry = λ h k v ttl s. set_hash_entry h k v s;
  delete_hash_entry = λ h k s. (delete_hash_entry h k s).0;
  is_member = is_member;
  add_to_set = add_to_set;
  remove_from_set = λ n m s. (remove_from_set n m s).0;
  get_hash_entry-set_hash_entry = λ h k v ttl s h' k'. get-set_hash_entry h k v s h' k';
  get_hash_entry-delete_hash_entry = get-delete_hash_entry;
  get_hash_entry-add_to_set = get-add;
  get_hash_entry-remove_from_set = get-remove;
  is_member-add_to_set = is_member-add;
  is_member-remove_from_set = is_member-remove;
  is_member-set_hash_entry = λ h k v ttl s n m. member-set h k v s n m;
  is_member-delete_hash_entry = member-delete;
}
