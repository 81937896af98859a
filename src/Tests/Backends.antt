-- ===== src/Tests/Backends.antt =====
-- The balancer with three backends.
use codo.Prelude.{ℕ, ◌+◌, ◌<◌, ◌≡◌, refl, true, false, some, List, [], ◌∷◌, arith, leb, not}
use codo.Prelude.Int.{ℤ, pos, negsuc}
use codo.Balancer.Selection.{
  Backend, is_healthy, recover, health_recovery_secs, backend_round_robin_select,
}
use codo.Balancer.Selection.RoundRobin.{
  IsTurn, sum_current, takes_part, turn_weight, backend_round_robin_select-Best,
  backend_round_robin_select-sum,
}
use codo.Balancer.Health.{
  health_failure_threshold, mark_backend_failure, mark_backend_success, failures, failures-healthy,
  recover_after_failure,
}

abbrev backend : ℕ → ℤ → ℕ → Backend
backend weight current_weight health_status = record {
  weight = weight;
  current_weight = current_weight;
  current_connections = 0;
  failed_requests = 0;
  consecutive_failures = 0;
  health_status = health_status;
  last_health_check = 100;
}

abbrev three_backends : List Backend
three_backends = backend 5 (negsuc 1) 1 ∷ backend 1 (pos 1) 0 ∷ backend 2 (pos 1) 1 ∷ []

some_weight : 0 < turn_weight 105 three_backends
unfolding turn_weight takes_part
some_weight = ground arith

backend_round_robin_select-Best_example :
    (i : ℕ) × (b : Backend) × ((backend_round_robin_select 105 three_backends).1 ≡ some i)
    × IsTurn 105 three_backends (backend_round_robin_select 105 three_backends).0 i b
backend_round_robin_select-Best_example =
    backend_round_robin_select-Best 105 three_backends some_weight

backend_round_robin_select-sum_example :
    sum_current (backend_round_robin_select 200 three_backends).0 ≡ sum_current three_backends
backend_round_robin_select-sum_example = backend_round_robin_select-sum 200 three_backends

failures-healthy_example :
    is_healthy (failures 4 200 (backend 5 (pos 0) 1)) ≡ not (leb health_failure_threshold 4)
failures-healthy_example = failures-healthy 4 200 (backend 5 (pos 0) 1) refl refl

abbrev down : Backend
down = backend 5 (pos 0) 0

still_down : is_healthy (mark_backend_failure 200 down) ≡ false
unfolding mark_backend_failure
still_down = refl

recover_after_failure_example :
    (is_healthy (recover 240 (mark_backend_failure 200 down))
      ≡ leb (200 + health_recovery_secs) 240)
    × (is_healthy (mark_backend_success down) ≡ true)
    × ((mark_backend_success down).consecutive_failures ≡ 0)
recover_after_failure_example = recover_after_failure down 200 240 still_down (omega arith)
