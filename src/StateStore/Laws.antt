-- ===== src/StateStore/Laws.antt =====
-- How the reads of the in-memory store of gateway/state_store.py see the writes before them.
use erp_security.Prelude.{
  String, none, some, true, false, ◌&&◌, not, ◌==◌, ◌≡◌, eq_iff, arith, if◌then◌else◌, List, [],
  ◌∷◌, filter, get_or,
}
use erp_security.Prelude.Dict.{get, put, pop, get-put, get-pop, get-empty}
use erp_security.Prelude.Text.{member}
use erp_security.StateStore.{
  InMemoryStateStore, is_member, add_to_set, remove_from_set, get_hash_entry, set_hash_entry,
  delete_hash_entry,
}

module _ {V : Type 0} where
  pub get-set_hash_entry :
      (h k : String) (v : V) (s : InMemoryStateStore V) (h' k' : String)
      → get_hash_entry h' k' (set_hash_entry h k v s)
        ≡ (if (h == h') && (k == k') then some v else get_hash_entry h' k' s)
  unfolding get_hash_entry set_hash_entry
  get-set_hash_entry h k v s h' k' = ground (
    arith,
    get-put s.hashes h h' (put (get_or (get s.hashes h) []) k v),
    get-put (get_or (get s.hashes h) []) k k' v,
    eq_iff h h',
    get-empty {V = V} k',
  )

  pub get-delete_hash_entry :
      (h k : String) (s : InMemoryStateStore V) (h' k' : String)
      → get_hash_entry h' k' (delete_hash_entry h k s).0
        ≡ (if (h == h') && (k == k') then none else get_hash_entry h' k' s)
  unfolding get_hash_entry delete_hash_entry
  get-delete_hash_entry h k s h' k' = ground (
    arith,
    get-put s.hashes h h' (pop (get_or (get s.hashes h) []) k),
    get-pop (get_or (get s.hashes h) []) k k',
    eq_iff h h',
    eq_iff k k',
  )

member-remove :
    (m j : String) (xs : List String)
    → member j (filter (λ x. not (x == m)) xs) ≡ (if m == j then false else member j xs)
member-remove m j [] = ground arith
member-remove m j (x ∷ xs) =
    ground (arith, member-remove m j xs, eq_iff x m, eq_iff x j, eq_iff m j)

module _ {V : Type 0} where
  pub is_member-add :
      (n m : String) (s : InMemoryStateStore V) (n' m' : String)
      → is_member n' m' (add_to_set n m s)
        ≡ (if (n == n') && (m == m') then true else is_member n' m' s)
  unfolding is_member add_to_set
  is_member-add n m s n' m' =
      let ms = get_or (get s.sets n) [] in
      ground
        (arith, get-put s.sets n n' (if member m ms then ms else m ∷ ms), eq_iff n n', eq_iff m m')

  pub is_member-remove :
      (n m : String) (s : InMemoryStateStore V) (n' m' : String)
      → is_member n' m' (remove_from_set n m s).0
        ≡ (if (n == n') && (m == m') then false else is_member n' m' s)
  unfolding is_member remove_from_set
  is_member-remove n m s n' m' =
      let ms = get_or (get s.sets n) [] in
      ground (
        arith,
        get-put s.sets n n' (filter (λ x. not (x == m)) ms),
        member-remove m m' ms,
        eq_iff n n',
        eq_iff m m',
      )
