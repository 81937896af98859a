-- ===== src/Balancer/Health.antt =====
-- The passive health checks of balancer/src/balancer.c, and their recovery in
-- balancer/src/selection.c.
use codo.Prelude.{
  ℕ, zero, suc, ◌+◌, ◌≤◌, ◌≡◌, true, false, ◌||◌, not, leb, ◌==◌, if◌then◌else◌, arith,
}
use codo.Balancer.Selection.{Backend, is_healthy, recover, health_recovery_secs}

-- HEALTH_FAILURE_THRESHOLD
abbrev pub health_failure_threshold : ℕ
health_failure_threshold = 3

unfoldable pub mark_backend_failure : ℕ → Backend → Backend
mark_backend_failure now b =
    let failures = b.consecutive_failures + 1 in
    record b {
      failed_requests = b.failed_requests + 1;
      consecutive_failures = failures;
      last_health_check = now;
      health_status = if leb health_failure_threshold failures then 0 else b.health_status;
    }

unfoldable pub mark_backend_success : Backend → Backend
mark_backend_success b =
    if not (b.consecutive_failures == 0) || not (b.health_status == 1)
    then record b { consecutive_failures = 0; health_status = 1 }
    else b

-- `n` failures in a row, marked at `now`.
pub failures : ℕ → ℕ → Backend → Backend
failures zero now b = b
failures (suc n) now b = mark_backend_failure now (failures n now b)

failures_count :
    (n now : ℕ) (b : Backend) → (failures n now b).consecutive_failures ≡ b.consecutive_failures + n
unfolding failures mark_backend_failure
failures_count zero now b = omega arith
failures_count (suc n) now b = omega (arith, failures_count n now b)

-- A healthy backend stays in rotation exactly as long as its failures since the last success are
-- fewer than three.
pub failures-healthy :
    (n now : ℕ) (b : Backend)
    → b.health_status ≡ 1
    → b.consecutive_failures ≡ 0
    → is_healthy (failures n now b) ≡ not (leb health_failure_threshold n)
unfolding failures mark_backend_failure
failures-healthy zero now b h c = ground arith
failures-healthy (suc n) now b h c =
    ground (arith, failures-healthy n now b h c, failures_count n now b)

-- A backend that a failure at `at` left out of rotation is taken back by the first selection 30
-- seconds later or more, with its count of failures cleared, and by none before; one that a success
-- marks is in rotation at once.
pub recover_after_failure :
    (b : Backend) (at now : ℕ)
    → is_healthy (mark_backend_failure at b) ≡ false
    → b.health_status ≤ 1
    → (is_healthy (recover now (mark_backend_failure at b)) ≡ leb (at + health_recovery_secs) now)
      × (is_healthy (mark_backend_success b) ≡ true)
      × ((mark_backend_success b).consecutive_failures ≡ 0)
unfolding recover mark_backend_failure mark_backend_success
recover_after_failure b at now h small = ground arith
