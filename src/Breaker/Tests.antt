-- ===== src/Breaker/Tests.antt =====
-- Runs of the breaker at concrete readings, and the theorems at inputs that meet their hypotheses.
use erp_security.Prelude.{◌≡◌, refl, arith, [], ◌∷◌, false}
use erp_security.Breaker.{CircuitBreaker, closed, tripped, allow_request, Call, run}
use erp_security.Breaker.Isolation.{isolates}

abbrev fresh : CircuitBreaker
fresh = record {
  failure_threshold = 2;
  recovery_timeout_seconds = 10;
  half_open_success_threshold = 2;
  state = closed;
  failure_count = 0;
  success_count = 0;
  last_state_change = 100;
  last_failure_time = 0;
}

abbrev opened : CircuitBreaker
opened = record fresh {
  state = tripped;
  failure_count = 2;
  last_state_change = 102;
  last_failure_time = 102;
}

trip_run : run (Call.failure 101 101 ∷ Call.failure 102 102 ∷ []) fresh ≡ opened
unfolding run
trip_run = refl

isolates_example :
    let b = run (Call.success 103 ∷ Call.request 105 ∷ Call.failure 106 106 ∷ []) opened in
    (b.state ≡ tripped) × ((allow_request 111 b).1 ≡ false)
isolates_example =
    isolates (Call.success 103 ∷ Call.request 105 ∷ Call.failure 106 106 ∷ []) 111 opened refl
      (omega arith) (omega arith)
