-- ===== src/Breaker/Trips.antt =====
-- When the breaker of gateway/ha_dr.py trips and when it closes again.
use erp_security.Prelude.{
  ℕ, ◌+◌, ◌<◌, ◌≤◌, ◌≡◌, Bool-cases, inl, inr, arith, ltb, if◌then◌else◌, List, [], ◌∷◌, length,
  true,
}
use erp_security.Breaker.{
  CircuitBreaker, CircuitBreakerState, closed, tripped, half_open, init, allow_request,
  record_success, record_failure, Call, step, run,
}

-- A closed breaker is below its failure threshold, a half-open one below its success threshold.
abbrev InState : CircuitBreakerState → CircuitBreaker → Type 0
InState closed b = b.failure_count < b.failure_threshold
InState half_open b = b.success_count < b.half_open_success_threshold
InState tripped b = Unit {0}

pub record IsValid (b : CircuitBreaker) : Type 0 where
  pub trips : 0 < b.failure_threshold
  pub closes : 0 < b.half_open_success_threshold
  pub counts : InState b.state b

pub init-IsValid :
    (threshold timeout successes now : ℕ)
    → 0 < threshold
    → 0 < successes
    → IsValid (init threshold timeout successes now)
unfolding init
init-IsValid threshold timeout successes now p q = ground arith

pub step-IsValid : (c : Call) (b : CircuitBreaker) → IsValid b → IsValid (step c b)
unfolding step
step-IsValid (Call.request now) b v = ground arith
step-IsValid (Call.success now) b v = ground arith
step-IsValid (Call.failure failed_at now) b v = ground arith

-- In every state that calls can lead to, a closed breaker has counted fewer failures than its
-- threshold and a half-open one fewer successes than its own.
pub run-IsValid : (cs : List Call) (b : CircuitBreaker) → IsValid b → IsValid (run cs b)
unfolding run
run-IsValid [] b v = v
run-IsValid (c ∷ cs) b v = run-IsValid cs (step c b) (step-IsValid c b v)

-- Failures at the given readings, with no success in between.
abbrev pub failures : List (ℕ × ℕ) → CircuitBreaker → CircuitBreaker
failures [] b = b
failures ((failed_at, now) ∷ ts) b = failures ts (record_failure failed_at now b)

failures-tripped :
    (ts : List (ℕ × ℕ)) (b : CircuitBreaker) → b.state ≡ tripped → (failures ts b).state ≡ tripped
failures-tripped [] b h = h
failures-tripped ((failed_at, now) ∷ ts) b h =
    failures-tripped ts (record_failure failed_at now b) (unfold record_failure in ground arith)

pub record_failure-closed :
    (failed_at now : ℕ) (b : CircuitBreaker)
    → b.state ≡ closed
    → let b' = record_failure failed_at now b in
      (b'.state ≡ (if ltb (b.failure_count + 1) b.failure_threshold then closed else tripped))
      × (b'.failure_count ≡ b.failure_count + 1)
      × (b'.failure_threshold ≡ b.failure_threshold)
unfolding record_failure
record_failure-closed failed_at now b s = (ground arith, ground arith, ground arith)

-- A closed breaker trips on exactly the failure that fills its threshold: it is open after a run
-- of failures if they and those counted before reach the threshold, and closed otherwise.
pub failures_trip :
    (ts : List (ℕ × ℕ)) (b : CircuitBreaker)
    → b.state ≡ closed
    → b.failure_count < b.failure_threshold
    → (failures ts b).state
      ≡ (if ltb (b.failure_count + length ts) b.failure_threshold then closed else tripped)
failures_trip [] b s h = ground arith
failures_trip ((failed_at, now) ∷ ts) b s h =
    let (st, fc, th) = record_failure-closed failed_at now b s in
    elim (Bool-cases (ltb (b.failure_count + 1) b.failure_threshold)) [
      | inl below ↦ ground (arith, failures_trip ts (record_failure failed_at now b))
      | inr reached ↦ ground (arith, failures-tripped ts (record_failure failed_at now b))
    ]

-- Successes at the given readings.
abbrev pub successes : List ℕ → CircuitBreaker → CircuitBreaker
successes [] b = b
successes (now ∷ ts) b = successes ts (record_success now b)

successes-closed :
    (ts : List ℕ) (b : CircuitBreaker) → b.state ≡ closed → (successes ts b).state ≡ closed
successes-closed [] b s = s
successes-closed (now ∷ ts) b s =
    successes-closed ts (record_success now b) (unfold record_success in ground arith)

record_success-half_open :
    (now : ℕ) (b : CircuitBreaker)
    → b.state ≡ half_open
    → let b' = record_success now b in
      (b'.state
        ≡ (if ltb (b.success_count + 1) b.half_open_success_threshold then half_open else closed))
      × (b'.success_count ≡ b.success_count + 1)
      × (b'.half_open_success_threshold ≡ b.half_open_success_threshold)
unfolding record_success
record_success-half_open now b s = (ground arith, ground arith, ground arith)

successes_close :
    (ts : List ℕ) (b : CircuitBreaker)
    → b.state ≡ half_open
    → b.success_count < b.half_open_success_threshold
    → (successes ts b).state ≡ (
        if ltb (b.success_count + length ts) b.half_open_success_threshold
        then half_open
        else closed)
successes_close [] b s h = ground arith
successes_close (now ∷ ts) b s h =
    let (st, sc, th) = record_success-half_open now b s in
    elim (Bool-cases (ltb (b.success_count + 1) b.half_open_success_threshold)) [
      | inl below ↦ ground (arith, successes_close ts (record_success now b))
      | inr reached ↦ ground (arith, successes-closed ts (record_success now b))
    ]

-- Recovery: once the timeout has passed, an open breaker admits a request, and from there it
-- closes after exactly `half_open_success_threshold` successes, whatever it counted before.
pub recovers :
    (now : ℕ) (ts : List ℕ) (b : CircuitBreaker)
    → b.state ≡ tripped
    → 0 < b.half_open_success_threshold
    → b.last_state_change + b.recovery_timeout_seconds ≤ now
    → let (trial, admitted) = allow_request now b in
      (admitted ≡ true)
      × ((successes ts trial).state
          ≡ (if ltb (length ts) b.half_open_success_threshold then half_open else closed))
unfolding allow_request
recovers now ts b s p h = (
  ground arith,
  ground (
    arith,
    successes_close ts (record b { state = half_open; last_state_change = now; success_count = 0 }),
  ),
)
