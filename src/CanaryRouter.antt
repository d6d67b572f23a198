-- ===== src/CanaryRouter.antt =====
-- The canary router of gateway/canary_router.py: `Metrics` is class TrafficMetrics, `Router` the
-- state, the stages and the routing of class CanaryRouter, and `Slo` its budgets and the check of
-- every request against them. A weight or a rate is a number of ten-thousandths, which is the
-- resolution of the sticky hash and of the rounded error rate; a latency is one of microseconds,
-- and a latency of the statistics or of a budget one of hundredths of a millisecond, the place
-- that the code rounds to. A rate is the exact quotient, rounded half to even. `get_status` only
-- reports, and so do the dictionaries that `promote` and `rollback` return. Locks are left out: a method runs alone.
pub mod Metrics
pub mod Router
pub mod Slo
pub mod Stages
pub mod Sticky
pub mod Guard
mod Tests
