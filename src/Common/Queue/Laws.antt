-- ===== src/Common/Queue/Laws.antt =====
-- The order in which the task queue of common/src/thread_pool.c serves, and its size.
use codo.Prelude.{
  ℕ, zero, suc, ◌+◌, ◌-◌, ◌≡◌, ◌≢◌, refl, ◌∙◌, ap, sym, subst, Option, none, some, List, [], ◌∷◌,
  ◌++◌, arith, length, length-append, get_elem?, get_elem?-lt, set, drop, ◌==◌, ltb, true, false,
}
use codo.Prelude.Int.{pos}
use codo.Storage.Memory.{done, ◌>>=◌}
use codo.Common.Queue.{
  Task, Chain, TaskQueue, enqueue, push_at, push_priority, task_queue_push, head_unless, dequeue,
  taken, unlink_head, task_queue_pop,
}
use codo.Common.Queue.Chains.{Away, Holds, link_task-Holds, unlink_head-Holds}

module _ {A : Type 0} where
  -- The number of the tasks in all chains.
  unfoldable pub count : List (List (Task A)) → ℕ
  count [] = 0
  count (chain ∷ chains) = length chain + count chains

  -- Chain by chain, the tasks that it holds.
  abbrev pub AllHold : List (Chain A) → List (List (Task A)) → Type 0
  AllHold [] [] = Unit
  AllHold [] (ts ∷ tss) = ⊥
  AllHold (chain ∷ chains) [] = ⊥
  AllHold (chain ∷ chains) (ts ∷ tss) = Holds chain ts × AllHold chains tss

  -- The queue holds these tasks, by priority, and `size` counts them.
  abbrev pub IsQueue : TaskQueue A → List (List (Task A)) → Type 0
  IsQueue q tss = AllHold q.queues tss × (q.size ≡ count tss)

  AllHold-length :
      (chains : List (Chain A)) (tss : List (List (Task A)))
      → AllHold chains tss
      → length chains ≡ length tss
  AllHold-length [] [] h = refl
  AllHold-length [] (ts ∷ tss) h = absurd h
  AllHold-length (chain ∷ chains) [] h = absurd h
  AllHold-length (chain ∷ chains) (ts ∷ tss) h = ap suc (AllHold-length chains tss h.1)

  count-append :
      (n : ℕ) (task : Task A) (tss : List (List (Task A))) (ts : List (Task A))
      → get_elem? tss n ≡ some ts
      → count (set tss n (ts ++ (task ∷ []))) ≡ count tss + 1
  unfolding count
  count-append n task [] ts h = absurd (ground arith)
  count-append zero task (c ∷ tss) ts h =
      let same : c ≡ ts = ground arith in
      omega (arith, length-append ts (task ∷ []), ap (λ l. length l) same)
  count-append (suc n) task (c ∷ tss) ts h = omega (arith, count-append n task tss ts h)

  enqueue-AllHold :
      (n : ℕ) (task : Task A) (chains : List (Chain A)) (tss : List (List (Task A)))
      (ts : List (Task A))
      → AllHold chains tss
      → get_elem? tss n ≡ some ts
      → Away task.address ts
      → (r : List (Chain A)) × (enqueue n task chains ≡ done r)
        × AllHold r (set tss n (ts ++ (task ∷ [])))
  unfolding enqueue
  enqueue-AllHold n task [] [] ts h there away = absurd (ground arith)
  enqueue-AllHold n task [] (c ∷ tss) ts h there away = absurd h
  enqueue-AllHold n task (chain ∷ chains) [] ts h there away = absurd h
  enqueue-AllHold zero task (chain ∷ chains) (c ∷ tss) ts (holds, all) there away =
      let same : c ≡ ts = ground arith in
      let (linked, run, linked_holds) =
        link_task-Holds task chain ts (subst (λ l. Holds chain l) same holds) away in
      (linked ∷ chains, ap (λ r. r >>= λ x. done (x ∷ chains)) run, (linked_holds, all))
  enqueue-AllHold (suc n) task (chain ∷ chains) (c ∷ tss) ts (holds, all) there away =
      let (later, run, later_hold) = enqueue-AllHold n task chains tss ts all there away in
      (chain ∷ later, ap (λ r. r >>= λ x. done (chain ∷ x)) run, (holds, later_hold))

  -- A new task whose priority has a chain becomes the last one of that chain, which its tail is at.
  -- The other chains stay, `size` still counts the tasks that wait, and no null pointer is followed.
  pub task_queue_push-Appends :
      (q : TaskQueue A) (tss : List (List (Task A))) (task : Task A) (n : ℕ) (ts : List (Task A))
      → IsQueue q tss
      → task.priority ≡ pos n
      → get_elem? tss n ≡ some ts
      → Away task.address ts
      → (r : TaskQueue A) × (task_queue_push q task ≡ done (some r))
        × IsQueue r (set tss n (ts ++ (task ∷ [])))
  unfolding task_queue_push push_priority push_at
  task_queue_push-Appends q tss task n ts (holds, size) at there away =
      let inside = get_elem?-lt tss n there in
      let fits : ltb n (length q.queues) ≡ true =
        ground (arith, AllHold-length q.queues tss holds) in
      let (queues, run, all) = enqueue-AllHold n task q.queues tss ts holds there away in
      (
        record q { queues = queues; size = q.size + 1; total_tasks = q.total_tasks + 1 },
        ap (λ p. push_priority p task q) at ∙ rw (fits, run) refl,
        (all, omega (arith, count-append n task tss ts there)),
      )

  -- What the loop of the pops takes: the first task of the chain at `n`, behind which all are empty.
  abbrev pub Serves : List (List (Task A)) → Option (Task A × List (Chain A)) → Type 0
  Serves tss none = count tss ≡ 0
  Serves tss (some (task, rest)) =
      (n : ℕ) × (ts : List (Task A)) × (get_elem? tss n ≡ some (task ∷ ts))
      × (count (drop (suc n) tss) ≡ 0)
      × AllHold rest (set tss n ts)

  head_unless-Serves :
      (later : Option (Task A × List (Chain A))) (chain : Chain A) (chains : List (Chain A))
      (ts : List (Task A)) (tss : List (List (Task A)))
      → Holds chain ts
      → AllHold chains tss
      → Serves tss later
      → Serves (ts ∷ tss) (head_unless later chain chains)
  unfolding count head_unless
  head_unless-Serves none chain chains [] tss holds all h =
      subst
        (λ f.
          Serves ([] ∷ tss)
            (elim f [ none ↦ none | some task ↦ some (task, unlink_head task chain ∷ chains) ]))
        (sym holds.0) (omega (arith, h))
  head_unless-Serves none chain chains (t ∷ ts) tss holds all h =
      subst
        (λ f.
          Serves ((t ∷ ts) ∷ tss)
            (elim f [ none ↦ none | some task ↦ some (task, unlink_head task chain ∷ chains) ]))
        (sym holds.0) (zero, ts, refl, h, (unlink_head-Holds t ts chain holds, all))
  head_unless-Serves (some (task, later)) chain chains ts tss holds all (n, c, there, empty, rest) =
      (suc n, c, there, empty, (holds, rest))

  dequeue-Serves :
      (chains : List (Chain A)) (tss : List (List (Task A)))
      → AllHold chains tss
      → Serves tss (dequeue chains)
  unfolding dequeue count
  dequeue-Serves [] [] h = refl
  dequeue-Serves [] (ts ∷ tss) h = absurd h
  dequeue-Serves (chain ∷ chains) [] h = absurd h
  dequeue-Serves (chain ∷ chains) (ts ∷ tss) (holds, all) =
      head_unless-Serves (dequeue chains) chain chains ts tss holds all
        (dequeue-Serves chains tss all)

  count-set :
      (n : ℕ) (chains : List (List (Task A))) (chain : List (Task A)) (task : Task A)
      → get_elem? chains n ≡ some (task ∷ chain)
      → count (set chains n chain) + 1 ≡ count chains
  unfolding count
  count-set n [] chain task h = absurd (ground arith)
  count-set zero (c ∷ chains) chain task h = ground arith
  count-set (suc n) (c ∷ chains) chain task h = omega (arith, count-set n chains chain task h)

  -- What a pop gives: the first of the tasks with the highest priority that any task has.
  abbrev pub Highest : List (List (Task A)) → Task A → TaskQueue A → Type 0
  Highest tss task r =
      (n : ℕ) × (ts : List (Task A)) × (get_elem? tss n ≡ some (task ∷ ts))
      × (count (drop (suc n) tss) ≡ 0)
      × IsQueue r (set tss n ts)

  taken-Highest :
      (q : TaskQueue A) (tss : List (List (Task A))) (best : Option (Task A × List (Chain A)))
      → q.size ≡ count tss
      → q.size ≢ 0
      → Serves tss best
      → (task : Task A) × (r : TaskQueue A) × (taken q best ≡ (some task, r)) × Highest tss task r
  taken-Highest q tss none valid some_size h = absurd (some_size (valid ∙ h))
  taken-Highest q tss (some (task, rest)) valid some_size (n, ts, there, empty, holds) = (
    task,
    record q { queues = rest; size = q.size - 1 },
    refl,
    (n, ts, there, empty, (holds, ap (◌- 1) valid ∙ ground (arith, count-set n tss ts task there))),
  )

  -- A pop of a queue with a task does not wait: it takes the oldest task of the highest priority
  -- that a waiting task has, leaves the others, and `size` still counts the tasks that wait.
  pub task_queue_pop-Highest :
      (q : TaskQueue A) (tss : List (List (Task A)))
      → IsQueue q tss
      → q.size ≢ 0
      → (task : Task A) × (r : TaskQueue A) × (task_queue_pop q ≡ some (some task, r))
        × Highest tss task r
  unfolding task_queue_pop
  task_queue_pop-Highest q tss (holds, size) some_size =
      let (task, r, same, highest) =
        taken-Highest q tss (dequeue q.queues) size some_size (dequeue-Serves q.queues tss holds) in
      let busy : (q.size == 0) ≡ false = ground arith in (task, r, rw busy (ap some same), highest)
