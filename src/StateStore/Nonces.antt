-- ===== src/StateStore/Nonces.antt =====
-- The single use of nonces in the in-memory store of gateway/state_store.py.
use erp_security.Prelude.{
  ℕ, ◌+◌, ◌*◌, ◌≤◌, String, some, true, false, ◌≡◌, eq_iff, eq_refl, arith, if◌then◌else◌, List, [],
  ◌∷◌, ltb, ◌∙◌,
}
use erp_security.Prelude.Dict.{get, pop, get-put, get-pop}
use erp_security.StateStore.{InMemoryStateStore, set_nonce_nx, second}

-- A call of `set_nonce_nx`: its clock reading, its key and its time to live.
pub record Use : Type 0 where
  pub now : ℕ
  pub key : String
  pub ttl_seconds : ℕ

abbrev pub UsedBy : ℕ → List Use → Type 0
UsedBy limit [] = Unit {0}
UsedBy limit (u ∷ us) = (u.now ≤ limit) × UsedBy limit us

module _ {V : Type 0} where
  unfoldable pub use_all : List Use → InMemoryStateStore V → InMemoryStateStore V
  use_all [] s = s
  use_all (u ∷ us) s = use_all us (set_nonce_nx u.now u.key u.ttl_seconds s).0

  -- A nonce is recorded with its expiry, or was there and has not expired.
  pub set_nonce_nx-records :
      (now ttl : ℕ) (key : String) (s : InMemoryStateStore V)
      → (set_nonce_nx now key ttl s).1 ≡ true
      → get (set_nonce_nx now key ttl s).0.nonces key ≡ some (now + ttl * second)
  unfolding set_nonce_nx
  set_nonce_nx-records now ttl key s h = grind (arith, get-put, get-pop, eq_refl)

  -- Until it expires a nonce stays on record, whichever nonce is used.
  pub set_nonce_nx-keeps :
      (u : Use) (key : String) (expiry : ℕ) (s : InMemoryStateStore V)
      → get s.nonces key ≡ some expiry
      → u.now ≤ expiry
      → get (set_nonce_nx u.now u.key u.ttl_seconds s).0.nonces key ≡ some expiry
  unfolding set_nonce_nx
  set_nonce_nx-keeps u key expiry s h l = ground (
    arith,
    get-pop s.nonces u.key key,
    get-pop s.nonces u.key u.key,
    get-put s.nonces u.key key (u.now + u.ttl_seconds * second),
    get-put (pop s.nonces u.key) u.key key (u.now + u.ttl_seconds * second),
    eq_iff u.key key,
  )

  use_all-keeps :
      (us : List Use) (key : String) (expiry : ℕ) (s : InMemoryStateStore V)
      → get s.nonces key ≡ some expiry
      → UsedBy expiry us
      → get (use_all us s).nonces key ≡ some expiry
  unfolding use_all
  use_all-keeps [] key expiry s h l = h
  use_all-keeps (u ∷ us) key expiry s h l =
      use_all-keeps us key expiry (set_nonce_nx u.now u.key u.ttl_seconds s).0
        (set_nonce_nx-keeps u key expiry s h l.0) l.1

  pub set_nonce_nx-known :
      (later ttl : ℕ) (key : String) (expiry : ℕ) (s : InMemoryStateStore V)
      → get s.nonces key ≡ some expiry
      → (set_nonce_nx later key ttl s).1 ≡ (if ltb expiry later then true else false)
  unfolding set_nonce_nx
  set_nonce_nx-known later ttl key expiry s h =
      ground (arith, get-pop s.nonces key key, eq_refl key)

  -- A nonce that was accepted is refused until its time to live has passed, whatever nonces are
  -- used before that, and is accepted again after it.
  pub single_use :
      (now ttl : ℕ) (key : String) (us : List Use) (later ttl' : ℕ) (s : InMemoryStateStore V)
      → (set_nonce_nx now key ttl s).1 ≡ true
      → UsedBy (now + ttl * second) us
      → (set_nonce_nx later key ttl' (use_all us (set_nonce_nx now key ttl s).0)).1
        ≡ ltb (now + ttl * second) later
  single_use now ttl key us later ttl' s h l =
      set_nonce_nx-known later ttl' key (now + ttl * second) _
        (use_all-keeps us key (now + ttl * second) _ (set_nonce_nx-records now ttl key s h) l)
      ∙ ground arith
