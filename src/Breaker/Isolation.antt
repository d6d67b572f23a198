-- ===== src/Breaker/Isolation.antt =====
-- What an open breaker of gateway/ha_dr.py shields the upstream from.
use erp_security.Prelude.{ℕ, ◌+◌, ◌<◌, ◌≡◌, refl, arith, List, [], ◌∷◌, false}
use erp_security.Breaker.{CircuitBreaker, tripped, allow_request, Call, step, run}

-- Every request among the calls is made before the given time.
abbrev pub RequestsBefore : ℕ → List Call → Type 0
RequestsBefore limit [] = Unit {0}
RequestsBefore limit (Call.request now ∷ cs) = (now < limit) × RequestsBefore limit cs
RequestsBefore limit (Call.success now ∷ cs) = RequestsBefore limit cs
RequestsBefore limit (Call.failure failed_at now ∷ cs) = RequestsBefore limit cs

-- The limit until which an open breaker refuses is left alone by every call made before it.
step-tripped :
    (limit : ℕ) (c : Call) (b : CircuitBreaker)
    → b.state ≡ tripped
    → limit ≡ b.last_state_change + b.recovery_timeout_seconds
    → RequestsBefore limit (c ∷ [])
    → let b' = step c b in
      (b'.state ≡ tripped) × (limit ≡ b'.last_state_change + b'.recovery_timeout_seconds)
unfolding step
step-tripped limit (Call.request now) b s e h = ground arith
step-tripped limit (Call.success now) b s e h = ground arith
step-tripped limit (Call.failure failed_at now) b s e h = ground arith

run-tripped :
    (limit : ℕ) (cs : List Call) (b : CircuitBreaker)
    → b.state ≡ tripped
    → limit ≡ b.last_state_change + b.recovery_timeout_seconds
    → RequestsBefore limit cs
    → let b' = run cs b in
      (b'.state ≡ tripped) × (limit ≡ b'.last_state_change + b'.recovery_timeout_seconds)
unfolding run
run-tripped limit [] b s e h = (s, e)
run-tripped limit (c ∷ cs) b s e h =
    let (s', e') = step-tripped limit c b s e (first c cs h) in
    run-tripped limit cs (step c b) s' e' (others c cs h)
  where
    first :
        (c : Call) (cs : List Call) → RequestsBefore limit (c ∷ cs) → RequestsBefore limit (c ∷ [])
    first (Call.request now) cs h = (h.0, tt)
    first (Call.success now) cs h = tt
    first (Call.failure failed_at now) cs h = tt

    others : (c : Call) (cs : List Call) → RequestsBefore limit (c ∷ cs) → RequestsBefore limit cs
    others (Call.request now) cs h = h.1
    others (Call.success now) cs h = h
    others (Call.failure failed_at now) cs h = h

-- From the moment it trips until the timeout has passed an open breaker stays open, and refuses
-- every request, however calls of all kinds interleave: late successes and failures of requests
-- that were under way neither close it nor prolong the wait.
pub isolates :
    (cs : List Call) (now : ℕ) (b : CircuitBreaker)
    → b.state ≡ tripped
    → RequestsBefore (b.last_state_change + b.recovery_timeout_seconds) cs
    → now < b.last_state_change + b.recovery_timeout_seconds
    → ((run cs b).state ≡ tripped) × ((allow_request now (run cs b)).1 ≡ false)
unfolding allow_request
isolates cs now b s h lt =
    let (s', e) = run-tripped (b.last_state_change + b.recovery_timeout_seconds) cs b s refl h in
    (s', ground arith)

-- A breaker that refuses a request stays as it is.
pub refuses-same :
    (now : ℕ) (b : CircuitBreaker) → (allow_request now b).1 ≡ false → (allow_request now b).0 ≡ b
unfolding allow_request
refuses-same now b h = ground arith
