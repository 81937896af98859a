-- ===== src/Balancer/Selection.antt =====
-- balancer/src/selection.c: the four strategies, each run under `backend_mutex` on the array of
-- backends. A selected backend is given by its index.
pub mod Best
pub mod RoundRobin
use codo.Prelude.{
  ℕ, zero, suc, ◌+◌, ◌-◌, ◌%◌, ◌^◌, Bool, true, false, ◌&&◌, ◌||◌, Option, none, some, List, [],
  ◌∷◌, map, ltb, leb, ◌==◌, if◌then◌else◌, length, get_elem?, set,
}
use codo.Prelude.Int.{ℤ, pos, ◌+ℤ◌, ◌-ℤ◌, ltb_ℤ}

-- The fields of `backend_t` that selection and health marking read or write. `current_connections` counts up from 0.
pub record Backend : Type 0 where
  pub weight : ℕ
  pub current_weight : ℤ
  pub current_connections : ℕ
  pub failed_requests : ℕ
  pub consecutive_failures : ℕ
  pub health_status : ℕ
  pub last_health_check : ℕ

abbrev pub is_healthy : Backend → Bool
is_healthy b = b.health_status == 1

-- HEALTH_RECOVERY_SECS
abbrev pub health_recovery_secs : ℕ
health_recovery_secs = 30

-- `now` is the monotonic clock in seconds; the difference in C is signed.
unfoldable pub recover : ℕ → Backend → Backend
recover now b =
    if b.health_status == 0 && leb (b.last_health_check + health_recovery_secs) now
    then record b { health_status = 1; consecutive_failures = 0 }
    else b

unfoldable pub passive_recovery : ℕ → List Backend → List Backend
unfolding recover
passive_recovery now backends = map (recover now) backends

-- The first loop of the round robin.
unfoldable pub total_weight : List Backend → ℕ
total_weight [] = 0
total_weight (b ∷ bs) = if is_healthy b then b.weight + total_weight bs else total_weight bs

unfoldable pub bump : Backend → Backend
bump b = if is_healthy b then record b { current_weight = b.current_weight +ℤ pos b.weight } else b

-- Keep the best so far, or take the backend at `i`.
abbrev pub heavier : Option (ℕ × ℤ) → ℕ → ℤ → Option (ℕ × ℤ)
heavier none i weight = some (i, weight)
heavier (some (j, w)) i weight = if ltb_ℤ w weight then some (i, weight) else some (j, w)

abbrev pub lighter : Option (ℕ × ℕ) → ℕ → ℕ → Option (ℕ × ℕ)
lighter none i count = some (i, count)
lighter (some (j, n)) i count = if ltb count n then some (i, count) else some (j, n)

-- The second loop, from index `i` on, with the selected index and the best weight so far; the
-- weights have been bumped on the way.
unfoldable pub best_from : ℕ → Option (ℕ × ℤ) → List Backend → Option (ℕ × ℤ)
best_from i best [] = best
best_from i best (b ∷ bs) =
    best_from (i + 1) (if is_healthy b then heavier best i b.current_weight else best) bs

-- `selected->current_weight -= total_weight`.
unfoldable pub charge : ℕ → ℕ → List Backend → List Backend
charge i total [] = []
charge zero total (b ∷ bs) = record b { current_weight = b.current_weight -ℤ pos total } ∷ bs
charge (suc i) total (b ∷ bs) = b ∷ charge i total bs

unfoldable pub backend_round_robin_select : ℕ → List Backend → List Backend × Option ℕ
backend_round_robin_select now backends =
    let alive = passive_recovery now backends in
    if total_weight alive == 0 then (alive, none) else (elim (best_from 0 none (map bump alive)) [
      | none ↦ (map bump alive, none)
      | some (i, w) ↦ (charge i (total_weight alive) (map bump alive), some i)
    ])

-- The loop of `least_connection_select`; the sentinel -1 is `none`.
unfoldable pub least_from : ℕ → Option (ℕ × ℕ) → List Backend → Option (ℕ × ℕ)
least_from i least [] = least
least_from i least (b ∷ bs) =
    least_from (i + 1) (if is_healthy b then lighter least i b.current_connections else least) bs

abbrev pub index_of {ℓ} : {A : Type ℓ} → Option (ℕ × A) → Option ℕ
index_of none = none
index_of (some (i, a)) = some i

unfoldable pub least_connection_select : ℕ → List Backend → List Backend × Option ℕ
least_connection_select now backends =
    let alive = passive_recovery now backends in (alive, index_of (least_from 0 none alive))

-- The loop of `ip_hash_select`, with the rounds left and the round's number.
unfoldable pub hash_from : ℕ → ℕ → ℕ → List Backend → Option ℕ
hash_from zero i initial_idx backends = none
hash_from (suc n) i initial_idx backends =
    let check_idx = (initial_idx + i) % length backends in
    elim (get_elem? backends check_idx) [
      | none ↦ none
      | some backend ↦ elim (is_healthy backend) [
        | true ↦ some check_idx
        | false ↦ hash_from n (i + 1) initial_idx backends
      ]
    ]

-- `hash` is the client's `net_addr_hash`.
unfoldable pub ip_hash_select : ℕ → ℕ → List Backend → List Backend × Option ℕ
ip_hash_select now hash backends =
    let alive = passive_recovery now backends in
    if length alive == 0
    then (alive, none)
    else (alive, hash_from (length alive) 0 (hash % 2 ^ 32 % length alive) alive)

-- The indices of the healthy backends, from index `i` on.
unfoldable pub alive_from : ℕ → List Backend → List ℕ
alive_from i [] = []
alive_from i (b ∷ bs) = let rest = alive_from (i + 1) bs in if is_healthy b then i ∷ rest else rest

-- `random` is what rand() returns.
unfoldable pub random_select : ℕ → ℕ → List Backend → List Backend × Option ℕ
random_select now random backends =
    let alive = passive_recovery now backends in
    let alive_indices = alive_from 0 alive in
    if length alive_indices == 0
    then (alive, none)
    else (alive, get_elem? alive_indices (random % length alive_indices))
