-- ===== src/Breaker.antt =====
-- The circuit breaker of gateway/ha_dr.py (class CircuitBreaker). Clock readings are natural
-- numbers of one fixed unit; each method takes the readings that its calls of `time.time()`
-- return, and a difference of readings is compared as a sum, so nothing is lost where a clock
-- goes back. Log lines and the report of `get_status` are left out.
pub mod Trips
pub mod Isolation
mod Tests
use erp_security.Prelude.{ℕ, ◌+◌, Bool, true, false, leb, if◌then◌else◌, List, [], ◌∷◌}

pub data CircuitBreakerState : Type 0 where
  closed tripped half_open : CircuitBreakerState

pub record CircuitBreaker : Type 0 where
  pub failure_threshold : ℕ
  pub recovery_timeout_seconds : ℕ
  pub half_open_success_threshold : ℕ
  pub state : CircuitBreakerState
  pub failure_count : ℕ
  pub success_count : ℕ
  pub last_state_change : ℕ
  pub last_failure_time : ℕ

-- `CircuitBreaker.__init__`, at a clock reading.
unfoldable pub init : ℕ → ℕ → ℕ → ℕ → CircuitBreaker
init threshold timeout successes now = record {
  failure_threshold = threshold;
  recovery_timeout_seconds = timeout;
  half_open_success_threshold = successes;
  state = closed;
  failure_count = 0;
  success_count = 0;
  last_state_change = now;
  last_failure_time = 0;
}

abbrev allow_in : CircuitBreakerState → ℕ → CircuitBreaker → CircuitBreaker × Bool
allow_in tripped now b =
    if leb (b.last_state_change + b.recovery_timeout_seconds) now
    then (record b { state = half_open; last_state_change = now; success_count = 0 }, true)
    else (b, false)
allow_in closed now b = (b, true)
allow_in half_open now b = (b, true)

unfoldable pub allow_request : ℕ → CircuitBreaker → CircuitBreaker × Bool
allow_request now b = allow_in b.state now b

abbrev success_in : CircuitBreakerState → ℕ → CircuitBreaker → CircuitBreaker
success_in half_open now b =
    let b' = record b { success_count = b.success_count + 1 } in
    if leb b.half_open_success_threshold (b.success_count + 1)
    then record b' { state = closed; failure_count = 0; last_state_change = now }
    else b'
success_in closed now b = record b { failure_count = 0 }
success_in tripped now b = b

unfoldable pub record_success : ℕ → CircuitBreaker → CircuitBreaker
record_success now b = success_in b.state now b

-- The first reading is the time of the failure, the second that of a change of state.
abbrev failure_in : CircuitBreakerState → ℕ → CircuitBreaker → CircuitBreaker
failure_in half_open now b = record b { state = tripped; last_state_change = now }
failure_in closed now b =
    if leb b.failure_threshold b.failure_count
    then record b { state = tripped; last_state_change = now }
    else b
failure_in tripped now b = b

unfoldable pub record_failure : ℕ → ℕ → CircuitBreaker → CircuitBreaker
record_failure failed_at now b =
    failure_in b.state now
      (record b { failure_count = b.failure_count + 1; last_failure_time = failed_at })

-- What callers do to a breaker, one call at a time under its lock.
pub data Call : Type 0 where
  request : ℕ → Call
  success : ℕ → Call
  failure : ℕ → ℕ → Call

unfoldable pub step : Call → CircuitBreaker → CircuitBreaker
unfolding allow_request record_success record_failure
step (request now) b = (allow_request now b).0
step (success now) b = record_success now b
step (failure failed_at now) b = record_failure failed_at now b

unfoldable pub run : List Call → CircuitBreaker → CircuitBreaker
unfolding step
run [] b = b
run (c ∷ cs) b = run cs (step c b)
