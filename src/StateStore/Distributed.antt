-- ===== src/StateStore/Distributed.antt =====
-- Class DistributedStateStore of gateway/state_store.py: Redis first, and the in-memory store
-- where Redis is away. The Redis client and the JSON text of a value are parameters; `none` is an
-- exception of a call. Host, port and timeout only reach the client, and log lines are left out.
pub mod Standalone
pub mod Failover
pub mod Offline
use erp_security.Prelude.{
  ℕ, zero, suc, ◌+◌, ◌*◌, String, ◌==◌, concat, Option, none, some, Bool, true, false, ltb,
  if◌then◌else◌, not, ◌&&◌, List, [], ◌∷◌, ◌++◌,
}
use erp_security.Prelude.Dict.{Dict}
use erp_security.StateStore
use erp_security.StateStore.{InMemoryStateStore, second}

-- The client library (`redis`, with the probe of the socket) and `json`.
pub record Redis (V : Type 0) : Type 1 where
  pub Server : Type 0
  pub connect : ℕ → Server → Bool × Server
  pub set_nx : String → ℕ → Server → Option Bool × Server
  pub sadd : String → String → Server → Option (Unit {0}) × Server
  pub srem : String → String → Server → Option (Unit {0}) × Server
  pub sismember : String → String → Server → Option Bool × Server
  pub smembers : String → Server → Option (List String) × Server
  pub hset : String → String → String → Server → Option (Unit {0}) × Server
  pub expire : String → ℕ → Server → Option (Unit {0}) × Server
  pub hget : String → String → Server → Option (Option String) × Server
  pub hgetall : String → Server → Option (Dict String) × Server
  pub hdel : String → String → Server → Option (Unit {0}) × Server
  pub keys : String → Server → Option (List String) × Server
  pub delete : List String → Server → Option (Unit {0}) × Server
  pub dumps : V → String
  pub loads : String → Option V

-- `{k: json.loads(v) for k, v in raw.items()}`: an entry that cannot be read raises.
unfoldable pub load_all : {V : Type 0} → (String → Option V) → Dict String → Option (Dict V)
load_all loads [] = some []
load_all loads ((k, text) ∷ d) =
    let rest = load_all loads d in
    elim (loads text) [
      | none ↦ none
      | some v ↦ elim rest [ none ↦ none | some d' ↦ some ((k, v) ∷ d') ]
    ]

module _ {V : Type 0} (redis : Redis V) where
  pub record DistributedStateStore : Type 0 where
    pub fallback : InMemoryStateStore V
    pub redis_client : Bool
    pub redis_available : Bool
    pub last_check : ℕ
    pub server : redis.Server

  -- `DistributedStateStore.__init__`, with a client or without.
  unfoldable pub init : Bool → redis.Server → DistributedStateStore
  init client server = record {
    fallback = StateStore.empty;
    redis_client = client;
    redis_available = client;
    last_check = 0;
    server = server;
  }

  -- `_get_redis`: whether a client is at hand, after an attempt to connect at most every 300 s.
  unfoldable pub get_redis : ℕ → DistributedStateStore → Bool × DistributedStateStore
  get_redis now s =
      if s.redis_client && s.redis_available
      then (true, s)
      else if not s.redis_available && ltb now (s.last_check + 300 * second)
      then (false, s)
      else let (up, server') = redis.connect now s.server in
        (
          up,
          record s { redis_client = up; redis_available = up; last_check = now; server = server' },
        )

  -- `if r: try: ... except: ...`: the result of a call, or `none` where there is no client or
  -- the call raised.
  unfoldable pub with_redis :
      {A : Type 0}
      → ℕ
      → (redis.Server → Option A × redis.Server)
      → DistributedStateStore
      → Option A × DistributedStateStore
  unfolding get_redis
  with_redis now call s =
      let (up, s') = get_redis now s in
      if up
      then (let (result, server') = call s'.server in (result, record s' { server = server' }))
      else (none, s')

  unfoldable pub set_nonce_nx :
      ℕ → String → ℕ → DistributedStateStore → DistributedStateStore × Bool
  unfolding with_redis StateStore.set_nonce_nx
  set_nonce_nx now key ttl_seconds s =
      let (result, s') = with_redis now (redis.set_nx (concat "nonce:" key) ttl_seconds) s in
      elim result [
        | some set ↦ (s', set)
        | none ↦
            let (f, recorded) = StateStore.set_nonce_nx now key ttl_seconds s'.fallback in
            (record s' { fallback = f }, recorded)
      ]

  unfoldable pub add_to_set : ℕ → String → String → DistributedStateStore → DistributedStateStore
  unfolding with_redis StateStore.add_to_set
  add_to_set now set_name m s =
      let s' = (with_redis now (redis.sadd (concat "set:" set_name) m) s).1 in
      record s' { fallback = StateStore.add_to_set set_name m s'.fallback }

  unfoldable pub remove_from_set :
      ℕ → String → String → DistributedStateStore → DistributedStateStore × Bool
  unfolding with_redis StateStore.remove_from_set
  remove_from_set now set_name m s =
      let s' = (with_redis now (redis.srem (concat "set:" set_name) m) s).1 in
      let (f, removed) = StateStore.remove_from_set set_name m s'.fallback in
      (record s' { fallback = f }, removed)

  unfoldable pub is_member :
      ℕ → String → String → DistributedStateStore → DistributedStateStore × Bool
  unfolding with_redis StateStore.is_member
  is_member now set_name m s =
      let (result, s') = with_redis now (redis.sismember (concat "set:" set_name) m) s in
      elim result [
        | some found ↦ (s', found)
        | none ↦ (s', StateStore.is_member set_name m s'.fallback)
      ]

  unfoldable pub get_set_members :
      ℕ → String → DistributedStateStore → DistributedStateStore × List String
  unfolding with_redis StateStore.get_set_members
  get_set_members now set_name s =
      let (result, s') = with_redis now (redis.smembers (concat "set:" set_name)) s in
      elim result [
        | some members ↦ (s', members)
        | none ↦ (s', StateStore.get_set_members set_name s'.fallback)
      ]

  -- `hset`, and `expire` if there is a time to live that is not 0.
  abbrev store_entry :
      String → String → V → Option ℕ → redis.Server → Option (Unit {0}) × redis.Server
  store_entry name key value ttl server =
      let (stored, server') = redis.hset name key (redis.dumps value) server in
      elim stored [
        | none ↦ (none, server')
        | some _ ↦ elim ttl [
          | none ↦ (some tt, server')
          | some zero ↦ (some tt, server')
          | some (suc n) ↦ redis.expire name (suc n) server'
        ]
      ]

  unfoldable pub set_hash_entry :
      ℕ → String → String → V → Option ℕ → DistributedStateStore → DistributedStateStore
  unfolding with_redis StateStore.set_hash_entry
  set_hash_entry now hash_name key value ttl s =
      let s' = (with_redis now (store_entry (concat "hash:" hash_name) key value ttl) s).1 in
      record s' { fallback = StateStore.set_hash_entry hash_name key value s'.fallback }

  -- `json.loads(val) if val else None`: the outer `none` is an exception.
  abbrev parse_entry : Option String → Option (Option V)
  parse_entry none = some none
  parse_entry (some text) =
      if text == ""
      then some none
      else elim (redis.loads text) [ none ↦ none | some v ↦ some (some v) ]

  abbrev load_entry : String → String → redis.Server → Option (Option V) × redis.Server
  load_entry name key server =
      let (found, server') = redis.hget name key server in
      elim found [ none ↦ (none, server') | some text ↦ (parse_entry text, server') ]

  unfoldable pub get_hash_entry :
      ℕ → String → String → DistributedStateStore → DistributedStateStore × Option V
  unfolding with_redis StateStore.get_hash_entry
  get_hash_entry now hash_name key s =
      let (result, s') = with_redis now (load_entry (concat "hash:" hash_name) key) s in
      elim result [
        | some value ↦ (s', value)
        | none ↦ (s', StateStore.get_hash_entry hash_name key s'.fallback)
      ]

  abbrev load_entries : String → redis.Server → Option (Dict V) × redis.Server
  load_entries name server =
      let (raw, server') = redis.hgetall name server in
      elim raw [ none ↦ (none, server') | some d ↦ (load_all redis.loads d, server') ]

  unfoldable pub get_all_hash_entries :
      ℕ → String → DistributedStateStore → DistributedStateStore × Dict V
  unfolding with_redis StateStore.get_all_hash_entries
  get_all_hash_entries now hash_name s =
      let (result, s') = with_redis now (load_entries (concat "hash:" hash_name)) s in
      elim result [
        | some entries ↦ (s', entries)
        | none ↦ (s', StateStore.get_all_hash_entries hash_name s'.fallback)
      ]

  unfoldable pub delete_hash_entry :
      ℕ → String → String → DistributedStateStore → DistributedStateStore × Bool
  unfolding with_redis StateStore.delete_hash_entry
  delete_hash_entry now hash_name key s =
      let s' = (with_redis now (redis.hdel (concat "hash:" hash_name) key) s).1 in
      let (f, deleted) = StateStore.delete_hash_entry hash_name key s'.fallback in
      (record s' { fallback = f }, deleted)

  -- The keys of all three kinds, asked for in turn, are deleted in one call if there are any.
  abbrev delete_keys : redis.Server → Option (Unit {0}) × redis.Server
  delete_keys server =
      let (nonces, server₁) = redis.keys "nonce:*" server in
      elim nonces [
        | none ↦ (none, server₁)
        | some ns ↦
            let (sets, server₂) = redis.keys "set:*" server₁ in
            elim sets [
              | none ↦ (none, server₂)
              | some ss ↦
                  let (hashes, server₃) = redis.keys "hash:*" server₂ in
                  elim hashes [
                    | none ↦ (none, server₃)
                    | some hs ↦ elim (ns ++ (ss ++ hs)) [
                      | [] ↦ (some tt, server₃)
                      | k ∷ ks ↦ redis.delete (k ∷ ks) server₃
                    ]
                  ]
            ]
      ]

  unfoldable pub reset_state : ℕ → DistributedStateStore → DistributedStateStore
  unfolding with_redis StateStore.clear
  reset_state now s =
      (with_redis now delete_keys (record s { fallback = StateStore.clear s.fallback })).1
