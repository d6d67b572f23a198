-- ===== src/ReplayGuard.antt =====
-- The guard against replays of gateway/replay_guard.py (class ReplayGuard), over the store of
-- `StateStore.Distributed` with stored values of any type. The header with the timestamp enters as
-- `float` reads it; a moment is a number of microseconds, and the window one of seconds. A reason
-- text is a constructor with what the text mentions.
pub mod Replays
mod Tests
use erp_security.Prelude.{
  ℕ, ◌+◌, ◌-◌, ◌*◌, String, Option, none, some, Bool, true, false, ltb, if◌then◌else◌,
}
use erp_security.Prelude.Text.{either}
use erp_security.StateStore.{second}
use erp_security.StateStore.Distributed.{Redis, DistributedStateStore, set_nonce_nx}

-- What `float` makes of a header that is not empty; `malformed` is its `ValueError`.
pub data Timestamp : Type 0 where
  malformed not_a_number infinite : Timestamp
  moment : ℕ → Timestamp
  before_epoch : ℕ → Timestamp

pub data Reason : Type 0 where
  malformed_timestamp infinitely_expired : Reason
  expired : ℕ → Reason
  replayed : String → Reason

-- The three results of `validate_request`, with the one reason that there may be.
pub record Verdict : Type 0 where
  pub is_replay : Bool
  pub threat_score : ℕ
  pub reason : Option Reason

abbrev pub accepted : Verdict
accepted = record { is_replay = false; threat_score = 0; reason = none }

abbrev pub refused : ℕ → Reason → Verdict
refused score why = record { is_replay = true; threat_score = score; reason = some why }

-- `abs(now - ts)` against the window.
abbrev check_skew : ℕ → ℕ → Option Verdict
check_skew max_skew_seconds skew =
    if ltb (max_skew_seconds * second) skew then some (refused 85 (expired skew)) else none

-- A comparison with a number that is none is false.
unfoldable pub check_freshness : ℕ → ℕ → Option Timestamp → Option Verdict
check_freshness max_skew_seconds now none = none
check_freshness max_skew_seconds now (some malformed) = some (refused 80 malformed_timestamp)
check_freshness max_skew_seconds now (some not_a_number) = none
check_freshness max_skew_seconds now (some infinite) = some (refused 85 infinitely_expired)
check_freshness max_skew_seconds now (some (moment t)) =
    check_skew max_skew_seconds ((now - t) + (t - now))
check_freshness max_skew_seconds now (some (before_epoch n)) = check_skew max_skew_seconds (now + n)

-- What the guard reads of a request.
pub record Request : Type 0 where
  pub nonce : Option String
  pub idempotency_key : Option String
  pub timestamp : Option Timestamp

module _ {V : Type 0} (redis : Redis V) where
  pub record ReplayGuard : Type 0 where
    pub max_skew_seconds : ℕ
    pub state_store : DistributedStateStore redis

  -- The use of a key, and what it makes of the request.
  unfoldable pub check_key : ℕ → String → ReplayGuard → ReplayGuard × Verdict
  unfolding set_nonce_nx
  check_key now key g =
      let (s, is_unique) = set_nonce_nx redis now key g.max_skew_seconds g.state_store in
      (record g { state_store = s }, if is_unique then accepted else refused 95 (replayed key))

  unfoldable pub validate_request : ℕ → Request → ReplayGuard → ReplayGuard × Verdict
  unfolding check_freshness check_key
  validate_request now q g = elim (check_freshness g.max_skew_seconds now q.timestamp) [
    | some verdict ↦ (g, verdict)
    | none ↦ elim (either q.nonce q.idempotency_key) [
      | some key ↦ check_key now key g
      | none ↦ (g, accepted)
    ]
  ]
