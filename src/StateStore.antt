-- ===== src/StateStore.antt =====
-- The state store of gateway/state_store.py. This file is class InMemoryStateStore, over any type
-- of stored values; `StateStore.Distributed` is the class that puts Redis in front of it, and
-- `StateStore.Interface` what the clients of a store rely on. A clock reading is a number of
-- microseconds, and a time to live one of seconds. Locks are left out: a method runs alone.
pub mod Interface
pub mod Distributed
pub mod Nonces
pub mod Laws
pub mod Memory
mod Tests
use erp_security.Prelude.{
  ℕ, ◌+◌, ◌*◌, String, Option, none, some, Bool, true, false, ◌==◌, ltb, if◌then◌else◌, List, [],
  ◌∷◌, not, get_or, filter,
}
use erp_security.Prelude.Dict.{Dict, get, put, pop, has}
use erp_security.Prelude.Text.{member}

-- Microseconds in a second.
abbrev pub second : ℕ
second = 1000000

pub record InMemoryStateStore (V : Type 0) : Type 0 where
  pub nonces : Dict ℕ
  pub sets : Dict (List String)
  pub hashes : Dict (Dict V)

module _ {V : Type 0} where
  unfoldable pub empty : InMemoryStateStore V
  empty = record { nonces = []; sets = []; hashes = [] }

  -- A nonce whose expiry lies before now is dropped first.
  purge : ℕ → String → InMemoryStateStore V → InMemoryStateStore V
  purge now key s = elim (get s.nonces key) [
    | none ↦ s
    | some expiry ↦ if ltb expiry now then record s { nonces = pop s.nonces key } else s
  ]

  unfoldable pub set_nonce_nx : ℕ → String → ℕ → InMemoryStateStore V → InMemoryStateStore V × Bool
  unfolding purge
  set_nonce_nx now key ttl_seconds s =
      let s' = purge now key s in
      if has s'.nonces key
      then (s', false)
      else (record s' { nonces = put s'.nonces key (now + ttl_seconds * second) }, true)

  -- `self._sets.get(set_name, set())`.
  unfoldable pub get_set_members : String → InMemoryStateStore V → List String
  get_set_members set_name s = get_or (get s.sets set_name) []

  unfoldable pub is_member : String → String → InMemoryStateStore V → Bool
  unfolding get_set_members
  is_member set_name m s = member m (get_set_members set_name s)

  unfoldable pub add_to_set : String → String → InMemoryStateStore V → InMemoryStateStore V
  unfolding get_set_members
  add_to_set set_name m s =
      let members = get_set_members set_name s in
      record s { sets = put s.sets set_name (if member m members then members else m ∷ members) }

  unfoldable pub remove_from_set :
      String → String → InMemoryStateStore V → InMemoryStateStore V × Bool
  unfolding is_member get_set_members
  remove_from_set set_name m s =
      if is_member set_name m s
      then (
        record s {
          sets = put s.sets set_name (filter (λ x. not (x == m)) (get_set_members set_name s));
        },
        true,
      )
      else (s, false)

  -- `dict(self._hashes.get(hash_name, {}))`.
  unfoldable pub get_all_hash_entries : String → InMemoryStateStore V → Dict V
  get_all_hash_entries hash_name s = get_or (get s.hashes hash_name) []

  unfoldable pub get_hash_entry : String → String → InMemoryStateStore V → Option V
  unfolding get_all_hash_entries
  get_hash_entry hash_name key s = get (get_all_hash_entries hash_name s) key

  unfoldable pub set_hash_entry : String → String → V → InMemoryStateStore V → InMemoryStateStore V
  unfolding get_all_hash_entries
  set_hash_entry hash_name key value s = record s {
    hashes = put s.hashes hash_name (put (get_all_hash_entries hash_name s) key value);
  }

  unfoldable pub delete_hash_entry :
      String → String → InMemoryStateStore V → InMemoryStateStore V × Bool
  unfolding get_hash_entry get_all_hash_entries
  delete_hash_entry hash_name key s = elim (get_hash_entry hash_name key s) [
    | none ↦ (s, false)
    | some value ↦ (
      record s { hashes = put s.hashes hash_name (pop (get_all_hash_entries hash_name s) key) },
      true,
    )
  ]

  unfoldable pub clear : InMemoryStateStore V → InMemoryStateStore V
  clear s = record s { nonces = []; sets = []; hashes = [] }
