-- ===== src/Balancer/Selection/RoundRobin.antt =====
-- The smooth weighted round robin of balancer/src/selection.c: what is chosen, and what the weights
-- add up to.
use codo.Prelude.{
  ℕ, zero, suc, ◌+◌, ◌-◌, ◌<◌, ◌≡◌, ◌≢◌, refl, ◌∙◌, ap, ap₂, sym, subst, true, false, Bool-cases,
  inl, inr, Option, none, some, List, [], ◌∷◌, map, arith, length, get_elem?, get_elem?-lt,
  length-map, ◌==◌, ◌⊎◌, Bool, leb, ◌&&◌, ◌||◌, if◌then◌else◌,
}
use codo.Prelude.Int.{ℤ, pos, ◌+ℤ◌, ◌-ℤ◌, ◌≤ℤ◌, int_laws, +ℤ_cancel}
use codo.Balancer.Selection.Best.{IsBest, NoneHealthy, NoneHeavier-at, best_from-IsBest}
use codo.Balancer.Selection.{
  Backend, is_healthy, recover, passive_recovery, total_weight, bump, best_from, charge,
  backend_round_robin_select,
}

-- The current weights of all backends, added up.
unfoldable pub sum_current : List Backend → ℤ
sum_current [] = pos 0
sum_current (b ∷ bs) = b.current_weight +ℤ sum_current bs

sum_current-recovery :
    (now : ℕ) (bs : List Backend) → sum_current (passive_recovery now bs) ≡ sum_current bs
unfolding sum_current passive_recovery
sum_current-recovery now [] = refl
sum_current-recovery now (b ∷ bs) =
    let kept : (recover now b).current_weight ≡ b.current_weight = ground arith in
    ap₂ ◌+ℤ◌ kept (sum_current-recovery now bs)

sum_current-bump :
    (bs : List Backend) → sum_current (map bump bs) ≡ sum_current bs +ℤ pos (total_weight bs)
unfolding sum_current bump total_weight
sum_current-bump [] = omega int_laws
sum_current-bump (b ∷ bs) =
    let rest = sum_current-bump bs in
    elim (Bool-cases (is_healthy b)) [
      | inl alive ↦ rw alive (ap (◌+ℤ◌ (b.current_weight +ℤ pos b.weight)) rest ∙ omega int_laws)
      | inr dead ↦ rw dead (ap (◌+ℤ◌ b.current_weight) rest ∙ omega int_laws)
    ]

sum_current-charge :
    (i total : ℕ) (bs : List Backend)
    → i < length bs
    → sum_current (charge i total bs) ≡ sum_current bs -ℤ pos total
unfolding sum_current charge
sum_current-charge i total [] h = absurd (omega arith)
sum_current-charge zero total (b ∷ bs) h = omega int_laws
sum_current-charge (suc i) total (b ∷ bs) h =
    ap (◌+ℤ◌ b.current_weight) (sum_current-charge i total bs (omega arith)) ∙ omega int_laws

total_weight-NoneHealthy : (bs : List Backend) → NoneHealthy (map bump bs) → total_weight bs ≡ 0
unfolding total_weight bump
total_weight-NoneHealthy [] h = refl
total_weight-NoneHealthy (b ∷ bs) h =
    let rest = total_weight-NoneHealthy bs h.1 in
    let dead = h.0 in let not_alive : is_healthy b ≡ false = ground arith in ground arith

-- What the selection makes of the best backend of the bumped list.
unfoldable settle : List Backend → Option (ℕ × ℤ) → List Backend × Option ℕ
settle alive none = (map bump alive, none)
settle alive (some (i, w)) = (charge i (total_weight alive) (map bump alive), some i)

select_settles :
    (now : ℕ) (backends : List Backend)
    → total_weight (passive_recovery now backends) ≢ 0
    → backend_round_robin_select now backends
      ≡ settle
          (passive_recovery now backends)
          (best_from 0 none (map bump (passive_recovery now backends)))
unfolding backend_round_robin_select settle
select_settles now backends h =
    let busy : (total_weight (passive_recovery now backends) == 0) ≡ false = ground arith in
    rw busy refl

select_idle :
    (now : ℕ) (backends : List Backend)
    → total_weight (passive_recovery now backends) ≡ 0
    → backend_round_robin_select now backends ≡ (passive_recovery now backends, none)
unfolding backend_round_robin_select
select_idle now backends h =
    let idle : (total_weight (passive_recovery now backends) == 0) ≡ true = ground arith in
    rw idle refl

nothing_left : (n : ℕ) → (n ≡ 0) ⊎ (n ≢ 0)
nothing_left zero = inl refl
nothing_left (suc n) = inr (λ e. absurd (omega arith))

found :
    (alive : List Backend) (best : Option (ℕ × ℤ))
    → total_weight alive ≢ 0
    → IsBest (map bump alive) best
    → (i : ℕ) × (w : ℤ) × (best ≡ some (i, w)) × IsBest (map bump alive) (some (i, w))
found alive none h k = absurd (h (total_weight-NoneHealthy alive k))
found alive (some (i, w)) h k = (i, w, refl, k)

found_in :
    (alive : List Backend)
    → total_weight alive ≢ 0
    → (i : ℕ) × (w : ℤ) × (best_from 0 none (map bump alive) ≡ some (i, w))
      × IsBest (map bump alive) (some (i, w))
found_in alive h =
    found alive (best_from 0 none (map bump alive)) h
      (best_from-IsBest (map bump alive) [] 0 none refl tt)

-- A backend takes part in a turn if it is healthy, or out of rotation for 30 seconds.
unfoldable pub takes_part : ℕ → Backend → Bool
takes_part now b =
    b.health_status == 1 || (b.health_status == 0 && leb 30 (now - b.last_health_check))

-- Its current weight for the turn: raised by its weight if it takes part.
unfoldable pub raised : ℕ → Backend → ℤ
raised now b = if takes_part now b then b.current_weight +ℤ pos b.weight else b.current_weight

-- The weights of those that take part, added up.
unfoldable pub turn_weight : ℕ → List Backend → ℕ
turn_weight now [] = 0
turn_weight now (b ∷ bs) =
    let rest = turn_weight now bs in if takes_part now b then b.weight + rest else rest

recovered-takes_part : (now : ℕ) (b : Backend) → is_healthy (recover now b) ≡ takes_part now b
unfolding recover takes_part
recovered-takes_part now b = ground arith

bumped-takes_part : (now : ℕ) (b : Backend) → is_healthy (bump (recover now b)) ≡ takes_part now b
unfolding recover takes_part bump
bumped-takes_part now b = ground arith

bumped-raised : (now : ℕ) (b : Backend) → (bump (recover now b)).current_weight ≡ raised now b
unfolding recover takes_part bump raised
bumped-raised now b = ground arith

recovered-weight : (now : ℕ) (b : Backend) → (recover now b).weight ≡ b.weight
unfolding recover
recovered-weight now b = ground arith

total_weight-turn_weight :
    (now : ℕ) (bs : List Backend) → total_weight (passive_recovery now bs) ≡ turn_weight now bs
unfolding total_weight turn_weight passive_recovery
total_weight-turn_weight now [] = refl
total_weight-turn_weight now (b ∷ bs) =
    ground
      (arith, total_weight-turn_weight now bs, recovered-takes_part now b, recovered-weight now b)

get-bumped :
    (now : ℕ) (bs : List Backend) (j : ℕ) (b : Backend)
    → get_elem? bs j ≡ some b
    → get_elem? (map bump (passive_recovery now bs)) j ≡ some (bump (recover now b))
unfolding passive_recovery
get-bumped now [] j b h = absurd (ground arith)
get-bumped now (c ∷ bs) zero b h = ground arith
get-bumped now (c ∷ bs) (suc j) b h = get-bumped now bs j b h

bumped-get :
    (now : ℕ) (bs : List Backend) (j : ℕ) (d : Backend)
    → get_elem? (map bump (passive_recovery now bs)) j ≡ some d
    → (b : Backend) × (get_elem? bs j ≡ some b) × (d ≡ bump (recover now b))
unfolding passive_recovery
bumped-get now [] j d h = absurd (ground arith)
bumped-get now (c ∷ bs) zero d h = (c, refl, ground arith)
bumped-get now (c ∷ bs) (suc j) d h = bumped-get now bs j d h

charge-at :
    (i total : ℕ) (bs : List Backend) (b : Backend)
    → get_elem? bs i ≡ some b
    → get_elem? (charge i total bs) i
      ≡ some (record b { current_weight = b.current_weight -ℤ pos total })
unfolding charge
charge-at i total [] b h = absurd (ground arith)
charge-at zero total (c ∷ bs) b h = ground arith
charge-at (suc i) total (c ∷ bs) b h = charge-at i total bs b h

charge-others :
    (i total j : ℕ) (bs : List Backend) → j ≢ i → get_elem? (charge i total bs) j ≡ get_elem? bs j
unfolding charge
charge-others i total j [] h = refl
charge-others zero total zero (c ∷ bs) h = absurd (h refl)
charge-others zero total (suc j) (c ∷ bs) h = refl
charge-others (suc i) total zero (c ∷ bs) h = refl
charge-others (suc i) total (suc j) (c ∷ bs) h = charge-others i total j bs (λ e. h (ap suc e))

-- The turn goes to the backend at `i`: it takes part and none that does is heavier once raised. Its
-- new current weight is the raised one less the weights of all that take part, those of the others
-- are the raised ones.
pub record IsTurn (now : ℕ) (before after : List Backend) (i : ℕ) (b : Backend) : Type 0 where
  pub at : get_elem? before i ≡ some b
  pub part : takes_part now b ≡ true
  pub heaviest :
      (j : ℕ) (c : Backend)
      → get_elem? before j ≡ some c
      → takes_part now c ≡ true
      → raised now c ≤ℤ raised now b
  pub charged :
      (d : Backend) × (get_elem? after i ≡ some d)
      × (d.current_weight ≡ raised now b -ℤ pos (turn_weight now before))
  pub others :
      (j : ℕ) (c : Backend)
      → get_elem? before j ≡ some c
      → j ≢ i
      → (d : Backend) × (get_elem? after j ≡ some d) × (d.current_weight ≡ raised now c)

settled-IsTurn :
    (now : ℕ) (backends : List Backend) (i : ℕ) (w : ℤ)
    → IsBest (map bump (passive_recovery now backends)) (some (i, w))
    → (b : Backend) × IsTurn now backends
        (settle (passive_recovery now backends) (some (i, w))).0
        i
        b
unfolding settle
settled-IsTurn now backends i w ((d, at, alive, heavy), rest) =
    let alives = passive_recovery now backends in
    let (b, at_b, same) = bumped-get now backends i d at in
    let weight : w ≡ raised now b =
      sym heavy ∙ ap (λ x. x.current_weight) same ∙ bumped-raised now b in
    (
      b,
      record {
        at = at_b;
        part = sym (bumped-takes_part now b) ∙ ap is_healthy (sym same) ∙ alive;
        heaviest = λ j c at_c takes.
            subst (λ v. raised now c ≤ℤ v) weight
              (subst (λ v. v ≤ℤ w) (bumped-raised now c)
                (NoneHeavier-at w (map bump alives) j (bump (recover now c)) rest
                  (get-bumped now backends j c at_c) (bumped-takes_part now c ∙ takes)));
        charged = (
          record d { current_weight = d.current_weight -ℤ pos (total_weight alives) },
          charge-at i (total_weight alives) (map bump alives) d at,
          ap₂ (λ v n. v -ℤ pos n) (heavy ∙ weight) (total_weight-turn_weight now backends),
        );
        others = λ j c at_c apart. (
          bump (recover now c),
          charge-others i (total_weight alives) j (map bump alives) apart
              ∙ get-bumped now backends j c at_c,
          bumped-raised now c,
        );
      },
    )

-- If the backends that take part have a weight between them, the round robin selects one of them,
-- none heavier than it once each is raised by its weight. The selected one is charged the weights of
-- all that take part, the others keep their raised weights, and those that take no part theirs.
pub backend_round_robin_select-Best :
    (now : ℕ) (backends : List Backend)
    → 0 < turn_weight now backends
    → (i : ℕ) × (b : Backend) × ((backend_round_robin_select now backends).1 ≡ some i)
      × IsTurn now backends (backend_round_robin_select now backends).0 i b
unfolding settle
backend_round_robin_select-Best now backends some_weight =
    let busy : total_weight (passive_recovery now backends) ≢ 0 =
      λ e. absurd (omega (arith, total_weight-turn_weight now backends)) in
    let (i, w, is_found, best) = found_in (passive_recovery now backends) busy in
    let (b, turn) = settled-IsTurn now backends i w best in
    let run =
      select_settles now backends busy ∙ ap (settle (passive_recovery now backends)) is_found in
    (i, b, ap (λ r. r.1) run, subst (λ r. IsTurn now backends r.0 i b) (sym run) turn)

sum_current-settle :
    (alive : List Backend) (i : ℕ) (w : ℤ)
    → i < length alive
    → sum_current (settle alive (some (i, w))).0 ≡ sum_current alive
unfolding settle
sum_current-settle alive i w h =
    let taken =
      sum_current-charge i (total_weight alive) (map bump alive) (rw (length-map alive) h) in
    let given = sum_current-bump alive in
    taken
    ∙ ap (◌-ℤ pos (total_weight alive)) given
    ∙ +ℤ_cancel (sum_current alive) (pos (total_weight alive))

-- Over one selection of the round robin the current weights of all backends, healthy or not, keep
-- their sum, so that a backend is given turns only as others lose them.
pub backend_round_robin_select-sum :
    (now : ℕ) (backends : List Backend)
    → sum_current (backend_round_robin_select now backends).0 ≡ sum_current backends
backend_round_robin_select-sum now backends =
    elim (nothing_left (total_weight (passive_recovery now backends))) [
      | inl idle ↦
          ap (λ r. sum_current r.0) (select_idle now backends idle)
          ∙ sum_current-recovery now backends
      | inr busy ↦
          let (i, w, is_found, best) = found_in (passive_recovery now backends) busy in
          let inside = get_elem?-lt (map bump (passive_recovery now backends)) i best.0.1 in
          let in_alive : i < length (passive_recovery now backends) =
            subst (λ n. i < n) (length-map (passive_recovery now backends) bump) inside in
          ap (λ r. sum_current r.0)
            (select_settles now backends busy
              ∙ ap (settle (passive_recovery now backends)) is_found)
          ∙ sum_current-settle (passive_recovery now backends) i w in_alive
          ∙ sum_current-recovery now backends
    ]
