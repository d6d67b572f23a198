-- ===== src/ReplayGuard/Replays.antt =====
-- The refusal of replays by gateway/replay_guard.py while the store is on its own.
use erp_security.Prelude.{
  ℕ, ◌+◌, ◌*◌, ◌≤◌, String, Option, none, some, Bool, true, false, ◌≡◌, inl, inr, arith, List, [],
  ◌∷◌, if◌then◌else◌, All, Option-cases,
}
use erp_security.Prelude.Dict.{get}
use erp_security.Prelude.Text.{either}
use erp_security.StateStore
use erp_security.StateStore.{second}
use erp_security.StateStore.Nonces.{
  set_nonce_nx-records, set_nonce_nx-keeps, set_nonce_nx-known, Use,
}
use erp_security.StateStore.Distributed.{Redis, set_nonce_nx}
use erp_security.ReplayGuard.{
  Timestamp, Request, Verdict, replayed, refused, accepted, ReplayGuard, check_freshness, check_key,
  validate_request,
}

-- Requests with the clock readings of their checks.
unfoldable pub validate_all :
    {V : Type 0} (redis : Redis V) → List (ℕ × Request) → ReplayGuard redis → ReplayGuard redis
validate_all redis [] g = g
validate_all redis ((now, q) ∷ qs) g = validate_all redis qs (validate_request redis now q g).0

absurd_replay : {A : Type 0} {b : Bool} → b ≡ true → b ≡ false → A
absurd_replay replay passed = ground (arith, replay, passed)

fresh_or_replay :
    (max_skew now : ℕ) (t : Option Timestamp) (v : Verdict)
    → check_freshness max_skew now t ≡ some v
    → v.is_replay ≡ true
unfolding check_freshness
fresh_or_replay max_skew now t v h = ground arith

module _ {V : Type 0} (redis : Redis V) where
  validate-stale :
      (now : ℕ) (q : Request) (g : ReplayGuard redis) (v : Verdict)
      → check_freshness g.max_skew_seconds now q.timestamp ≡ some v
      → validate_request redis now q g ≡ (g, v)
  unfolding validate_request
  validate-stale now q g v stale = ground arith

  validate-keyed :
      (now : ℕ) (q : Request) (key : String) (g : ReplayGuard redis)
      → check_freshness g.max_skew_seconds now q.timestamp ≡ none
      → either q.nonce q.idempotency_key ≡ some key
      → validate_request redis now q g ≡ check_key redis now key g
  unfolding validate_request
  validate-keyed now q key g fresh given = ground arith

module _ {V : Type 0} (redis : Redis V)
    (unreachable : (now : ℕ) (server : redis.Server) → (redis.connect now server).0 ≡ false) where
  -- On its own, the guard has a key on record that expires at a time.
  record Recorded (key : String) (expiry : ℕ) (g : ReplayGuard redis) : Type 0 where
    pub away : g.state_store.redis_available ≡ false
    pub known : get g.state_store.fallback.nonces key ≡ some expiry

  check_key-local :
      (now : ℕ) (key : String) (g : ReplayGuard redis)
      → g.state_store.redis_available ≡ false
      → let (g', v) = check_key redis now key g in
        let (f, unique) =
          StateStore.set_nonce_nx now key g.max_skew_seconds g.state_store.fallback in
        (g'.state_store.redis_available ≡ false)
        × (g'.state_store.fallback ≡ f)
        × (g'.max_skew_seconds ≡ g.max_skew_seconds)
        × (v ≡ (if unique then accepted else refused 95 (replayed key)))
  unfolding check_key set_nonce_nx
  check_key-local now key g away = ground (arith, unreachable now g.state_store.server)

  check_key-Recorded :
      (now : ℕ) (key j : String) (expiry : ℕ) (g : ReplayGuard redis)
      → now ≤ expiry
      → Recorded j expiry g
      → Recorded j expiry (check_key redis now key g).0
  check_key-Recorded now key j expiry g soon r =
      let (away, same, skew, verdict) = check_key-local now key g r.away in
      let step : Use = record { now = now; key = key; ttl_seconds = g.max_skew_seconds } in
      record {
        away = away;
        known = rw same (set_nonce_nx-keeps step j expiry g.state_store.fallback r.known soon);
      }

  validate-Recorded :
      (now : ℕ) (q : Request) (key : String) (expiry : ℕ) (g : ReplayGuard redis)
      → now ≤ expiry
      → Recorded key expiry g
      → Recorded key expiry (validate_request redis now q g).0
  unfolding validate_request
  validate-Recorded now q key expiry g soon r =
      elim (Option-cases (check_freshness g.max_skew_seconds now q.timestamp)) [
        | inr (verdict, stale) ↦ rw (stale, validate_request) r
        | inl fresh ↦ elim (Option-cases (either q.nonce q.idempotency_key)) [
          | inl none_given ↦ rw (fresh, none_given, validate_request) r
          | inr (k, given) ↦
              rw (fresh, given, validate_request) (check_key-Recorded now k key expiry g soon r)
        ]
      ]

  validate_all-Recorded :
      (qs : List (ℕ × Request)) (key : String) (expiry : ℕ) (g : ReplayGuard redis)
      → All (λ x. x.0 ≤ expiry) qs
      → Recorded key expiry g
      → Recorded key expiry (validate_all redis qs g)
  unfolding validate_all
  validate_all-Recorded [] key expiry g soon r = r
  validate_all-Recorded ((now, q) ∷ qs) key expiry g soon r =
      validate_all-Recorded qs key expiry (validate_request redis now q g).0 soon.1
        (validate-Recorded now q key expiry g soon.0 r)

  check_key-records :
      (now : ℕ) (key : String) (g : ReplayGuard redis)
      → g.state_store.redis_available ≡ false
      → (check_key redis now key g).1.is_replay ≡ false
      → Recorded key (now + g.max_skew_seconds * second) (check_key redis now key g).0
  check_key-records now key g away passed =
      let (away', same, skew, verdict) = check_key-local now key g away in
      record {
        away = away';
        known = rw same (
            set_nonce_nx-records now g.max_skew_seconds key g.state_store.fallback
              (ground (arith, verdict)));
      }

  check_key-refuses :
      (now : ℕ) (key : String) (expiry : ℕ) (g : ReplayGuard redis)
      → now ≤ expiry
      → Recorded key expiry g
      → (check_key redis now key g).1.is_replay ≡ true
  check_key-refuses now key expiry g soon r =
      let (away, same, skew, verdict) = check_key-local now key g r.away in
      ground (
        arith,
        verdict,
        set_nonce_nx-known now g.max_skew_seconds key expiry g.state_store.fallback r.known,
      )

  accepted-Recorded :
      (now : ℕ) (q : Request) (key : String) (g : ReplayGuard redis)
      → g.state_store.redis_available ≡ false
      → either q.nonce q.idempotency_key ≡ some key
      → (validate_request redis now q g).1.is_replay ≡ false
      → Recorded key (now + g.max_skew_seconds * second) (validate_request redis now q g).0
  accepted-Recorded now q key g away given passed =
      elim (Option-cases (check_freshness g.max_skew_seconds now q.timestamp)) [
        | inr (v, stale) ↦
            absurd_replay (fresh_or_replay g.max_skew_seconds now q.timestamp v stale)
              (rw (validate-stale redis now q g v stale) at passed)
        | inl fresh ↦ rw (validate-keyed redis now q key g fresh given) (
            check_key-records now key g away
              (rw (validate-keyed redis now q key g fresh given) at passed))
      ]

  Recorded-refused :
      (now : ℕ) (q : Request) (key : String) (expiry : ℕ) (g : ReplayGuard redis)
      → either q.nonce q.idempotency_key ≡ some key
      → now ≤ expiry
      → Recorded key expiry g
      → (validate_request redis now q g).1.is_replay ≡ true
  Recorded-refused now q key expiry g given soon r =
      elim (Option-cases (check_freshness g.max_skew_seconds now q.timestamp)) [
        | inr (v, stale) ↦
            rw (validate-stale redis now q g v stale)
              (fresh_or_replay g.max_skew_seconds now q.timestamp v stale)
        | inl fresh ↦
            rw (validate-keyed redis now q key g fresh given)
              (check_key-refuses now key expiry g soon r)
      ]

  -- A request is not replayed within the window: while Redis cannot be reached, after a request
  -- with a nonce or idempotency key was accepted, and after any requests checked before its window
  -- has passed, every request with the same key is refused as a replay until then.
  pub replays_refused :
      (now later : ℕ) (q q' : Request) (key : String) (qs : List (ℕ × Request))
      (g : ReplayGuard redis)
      → g.state_store.redis_available ≡ false
      → either q.nonce q.idempotency_key ≡ some key
      → either q'.nonce q'.idempotency_key ≡ some key
      → (validate_request redis now q g).1.is_replay ≡ false
      → All (λ x. x.0 ≤ now + g.max_skew_seconds * second) qs
      → later ≤ now + g.max_skew_seconds * second
      → (validate_request redis later q'
          (validate_all redis qs (validate_request redis now q g).0)).1.is_replay
        ≡ true
  replays_refused now later q q' key qs g away given given' passed soon soon' =
      Recorded-refused later q' key (now + g.max_skew_seconds * second) _ given' soon' (
        validate_all-Recorded qs key (now + g.max_skew_seconds * second) _ soon
          (accepted-Recorded now q key g away given passed))
