-- ===== src/Common/Queue.antt =====
-- The priority task queue of common/src/thread_pool.c. Each operation is what its thread does while
-- it holds `mutex`.
pub mod Chains
pub mod Laws
use codo.Prelude.{
  ℕ, zero, suc, ◌+◌, ◌-◌, ◌%◌, Bool, true, false, not, ◌&&◌, Option, none, some, List, [], ◌∷◌,
  ◌++◌, ltb, ◌==◌, if◌then◌else◌, length, get_elem?, set, replicate,
}
use codo.Prelude.Int.{ℤ, pos, negsuc}
use codo.Storage.Memory.{Run, done, fault, ◌>>=◌}

-- `task_t` at its address: the submitted function with its argument is a `work`; `next` stands in
-- the chain.
pub record Task {ℓ} (A : Type ℓ) : Type ℓ where
  pub address : ℕ
  pub work : A
  pub priority : ℤ

-- `queues[i]`, `tails[i]` and the `next` of the tasks of that priority, by address; none is NULL.
pub record Chain {ℓ} (A : Type ℓ) : Type ℓ where
  pub first : Option (Task A)
  pub last : Option (Task A)
  pub next : ℕ → Option (Task A)

-- `task_queue_t`; `num_priorities` is the length of `queues`, which stands for both arrays.
pub record TaskQueue {ℓ} (A : Type ℓ) : Type ℓ where
  pub queues : List (Chain A)
  pub size : ℕ
  pub total_tasks : ℕ
  pub shutdown : Bool

-- A worker's local queue, its `queue_locks` entry and whether `mutex` is held elsewhere.
pub record Worker {ℓ} (A : Type ℓ) : Type ℓ where
  pub queue : TaskQueue A
  pub queue_lock : Bool
  pub mutex_held : Bool

module _ {ℓ} {A : Type ℓ} where
  abbrev pub empty_chain : Chain A
  empty_chain = record { first = none; last = none; next = λ a. none }

  -- The pointers after `task->next = value`.
  abbrev pub put_next : Task A → Option (Task A) → (ℕ → Option (Task A)) → ℕ → Option (Task A)
  put_next task value next a = if task.address == a then value else next a

  -- Whether the two calloc calls return a block, and the mutex and the condition can be made;
  -- `none` is -1.
  unfoldable pub task_queue_init : Bool → Bool → Bool → Bool → ℕ → Option (TaskQueue A)
  task_queue_init queues_there tails_there mutex_made condition_made num_priorities =
      if queues_there && (tails_there && (mutex_made && condition_made))
      then some (record {
        queues = replicate num_priorities empty_chain;
        size = 0;
        total_tasks = 0;
        shutdown = false;
      })
      else none

  unfoldable pub task_queue_drain : TaskQueue A → TaskQueue A
  task_queue_drain q = record q { queues = replicate (length q.queues) empty_chain; size = 0 }

  -- `tails[i]->next = task`, and `tails[i] = task`: a fault where the tail is NULL.
  unfoldable pub behind_last : Task A → (ℕ → Option (Task A)) → Chain A → Run (Chain A)
  behind_last task next chain = elim (chain.last) [
    | none ↦ fault
    | some last ↦ done (record chain { last = some task; next = put_next last (some task) next })
  ]

  -- The two branches of the push, after `task->next = NULL`.
  unfoldable pub link_task : Task A → Chain A → Run (Chain A)
  link_task task chain =
      let next = put_next task none chain.next in
      elim (chain.first) [
        | none ↦ done (record { first = some task; last = some task; next = next })
        | some head ↦ behind_last task next chain
      ]

  unfoldable pub enqueue : ℕ → Task A → List (Chain A) → Run (List (Chain A))
  enqueue priority task [] = done []
  enqueue zero task (chain ∷ chains) = link_task task chain >>= λ linked. done (linked ∷ chains)
  enqueue (suc n) task (chain ∷ chains) = enqueue n task chains >>= λ later. done (chain ∷ later)

  -- -1 is `none`.
  unfoldable pub push_at : ℕ → Task A → TaskQueue A → Run (Option (TaskQueue A))
  push_at priority task q =
      if ltb priority (length q.queues)
      then (enqueue priority task q.queues >>= λ queues.
          done (
            some
              (record q { queues = queues; size = q.size + 1; total_tasks = q.total_tasks + 1 })))
      else done none

  unfoldable pub push_priority : ℤ → Task A → TaskQueue A → Run (Option (TaskQueue A))
  push_priority (negsuc n) task q = done none
  push_priority (pos n) task q = push_at n task q

  unfoldable pub task_queue_push : TaskQueue A → Task A → Run (Option (TaskQueue A))
  task_queue_push q task = push_priority task.priority task q

  -- The chain without its head: the tail goes with the last task.
  unfoldable pub unlink_head : Task A → Chain A → Chain A
  unlink_head task chain = elim (chain.next task.address) [
    | none ↦ record { first = none; last = none; next = put_next task none chain.next }
    | some second ↦ record chain { first = some second; next = put_next task none chain.next }
  ]

  -- The head of a chain, when no later chain has one.
  unfoldable pub head_unless :
      Option (Task A × List (Chain A)) → Chain A → List (Chain A) → Option (Task A × List (Chain A))
  head_unless (some (task, later)) chain chains = some (task, chain ∷ later)
  head_unless none chain chains = elim (chain.first) [
    | none ↦ none
    | some task ↦ some (task, unlink_head task chain ∷ chains)
  ]

  -- The loop of both pops, which runs from the last priority down to 0.
  unfoldable pub dequeue : List (Chain A) → Option (Task A × List (Chain A))
  dequeue [] = none
  dequeue (chain ∷ chains) = head_unless (dequeue chains) chain chains

  abbrev pub taken : TaskQueue A → Option (Task A × List (Chain A)) → Option (Task A) × TaskQueue A
  taken q none = (none, q)
  taken q (some (task, chains)) = (some task, record q { queues = chains; size = q.size - 1 })

  -- The wait on the condition is a blocked call: `none`.
  unfoldable pub task_queue_pop : TaskQueue A → Option (Option (Task A) × TaskQueue A)
  task_queue_pop q =
      if q.size == 0
      then (if q.shutdown then some (none, q) else none)
      else some (taken q (dequeue q.queues))

  -- `locked`: another thread holds `mutex`, so that the trylock fails.
  unfoldable pub task_queue_try_pop : Bool → TaskQueue A → Option (Task A) × TaskQueue A
  task_queue_try_pop locked q =
      if locked then (none, q) else (if q.size == 0 then (none, q) else taken q (dequeue q.queues))

  -- What one round of `steal_task` does to its target; a taken `queue_lock` skips it.
  unfoldable pub steal_from : Worker A → Option (Task A) × Worker A
  steal_from target =
      let (stolen, q) = task_queue_try_pop target.mutex_held target.queue in
      if target.queue_lock then (none, target) else (stolen, record target { queue = q })

  abbrev pub or_else :
      Option (Task A)
      → List (Worker A)
      → Option (Task A) × List (Worker A)
      → Option (Task A) × List (Worker A)
  or_else none workers rest = rest
  or_else (some stolen_task) workers rest = (some stolen_task, workers)

  -- The rounds left of `steal_task`, and the number of the next one.
  unfoldable pub steal_rounds : ℕ → ℕ → ℕ → List (Worker A) → Option (Task A) × List (Worker A)
  steal_rounds zero i worker_id workers = (none, workers)
  steal_rounds (suc n) i worker_id workers =
      let target = (worker_id + i) % length workers in
      elim (get_elem? workers target) [
        | none ↦ (none, workers)
        | some victim ↦
            let (stolen, left) = steal_from victim in
            or_else stolen (set workers target left)
              (steal_rounds n (i + 1) worker_id (set workers target left))
      ]

  unfoldable pub steal_task : ℕ → List (Worker A) → Option (Task A) × List (Worker A)
  steal_task worker_id workers = steal_rounds (length workers - 1) 1 worker_id workers
