-- ===== src/CanaryRouter/Metrics.antt =====
-- Class TrafficMetrics of gateway/canary_router.py.
use erp_security.Prelude.{
  ℕ, zero, suc, ◌+◌, ◌-◌, ◌*◌, ◌/◌, Bool, ltb, leb, eqb, if◌then◌else◌, List, [], ◌∷◌, ◌++◌, length,
  round_div,
}

pub record TrafficMetrics : Type 0 where
  pub window_size : ℕ
  pub latencies : List ℕ
  pub total_requests : ℕ
  pub error_count : ℕ

pub record Stats : Type 0 where
  pub total_requests : ℕ
  pub window_samples : ℕ
  pub error_rate : ℕ
  pub p50_latency_ms : ℕ
  pub p95_latency_ms : ℕ
  pub p99_latency_ms : ℕ

unfoldable pub traffic_metrics : ℕ → TrafficMetrics
traffic_metrics window_size = record {
  window_size = window_size;
  latencies = [];
  total_requests = 0;
  error_count = 0;
}

abbrev drop_first : List ℕ → List ℕ
drop_first [] = []
drop_first (x ∷ xs) = xs

-- `append` on a `deque(maxlen=n)`.
unfoldable pub append : ℕ → List ℕ → ℕ → List ℕ
append n xs x = let ys = xs ++ (x ∷ []) in if ltb n (length ys) then drop_first ys else ys

unfoldable pub record_request : ℕ → Bool → TrafficMetrics → TrafficMetrics
unfolding append
record_request latency is_error m = record m {
  latencies = append m.window_size m.latencies latency;
  total_requests = m.total_requests + 1;
  error_count = if is_error then m.error_count + 1 else m.error_count;
}

-- `sorted`.
unfoldable pub insert : ℕ → List ℕ → List ℕ
insert x [] = x ∷ []
insert x (y ∷ ys) = if leb x y then x ∷ y ∷ ys else y ∷ insert x ys

unfoldable pub sorted : List ℕ → List ℕ
unfolding insert
sorted [] = []
sorted (x ∷ xs) = insert x (sorted xs)

-- `xs[i]`, for an index in range.
unfoldable pub nth : List ℕ → ℕ → ℕ
nth [] i = 0
nth (x ∷ xs) zero = x
nth (x ∷ xs) (suc i) = nth xs i

-- The latency at `int(percent / 100 * (total - 1))` of the sorted window.
unfoldable pub percentile : ℕ → List ℕ → ℕ
unfolding nth sorted
percentile percent xs = round_div (nth (sorted xs) (percent * (length xs - 1) / 100)) 10

unfoldable pub get_stats : TrafficMetrics → Stats
unfolding percentile
get_stats m =
    if eqb (length m.latencies) 0
    then record {
      total_requests = m.total_requests;
      window_samples = 0;
      error_rate = 0;
      p50_latency_ms = 0;
      p95_latency_ms = 0;
      p99_latency_ms = 0;
    }
    else record {
      total_requests = m.total_requests;
      window_samples = length m.latencies;
      error_rate =
          if ltb 0 m.total_requests then round_div (m.error_count * 10000) m.total_requests else 0;
      p50_latency_ms = percentile 50 m.latencies;
      p95_latency_ms = percentile 95 m.latencies;
      p99_latency_ms = percentile 99 m.latencies;
    }

unfoldable pub reset : TrafficMetrics → TrafficMetrics
reset m = record m { latencies = []; total_requests = 0; error_count = 0 }
