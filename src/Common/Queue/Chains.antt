-- ===== src/Common/Queue/Chains.antt =====
-- The chains of common/src/thread_pool.c as lists of tasks: what the pointers of a chain say, and what
-- linking and unlinking a task makes of them.
use codo.Prelude.{
  ℕ, ◌≡◌, ◌≢◌, refl, ◌∙◌, ap, sym, subst, Option, none, some, List, [], ◌∷◌, ◌++◌, arith, ◌==◌,
  false, true,
}
use codo.Storage.Memory.{Run, done, fault}
use codo.Common.Queue.{Task, Chain, put_next, behind_last, link_task, unlink_head}

module _ {A : Type 0} where
  abbrev pub first_of : List (Task A) → Option (Task A)
  first_of [] = none
  first_of (t ∷ ts) = some t

  abbrev pub last_of : List (Task A) → Option (Task A)
  last_of [] = none
  last_of (t ∷ []) = some t
  last_of (t ∷ u ∷ ts) = last_of (u ∷ ts)

  -- No task of the list is at the address.
  abbrev pub Away : ℕ → List (Task A) → Type 0
  Away a [] = Unit
  Away a (t ∷ ts) = (t.address ≢ a) × Away a ts

  abbrev pub Distinct : List (Task A) → Type 0
  Distinct [] = Unit
  Distinct (t ∷ ts) = Away t.address ts × Distinct ts

  -- Each task points at the one behind it, the last one at none.
  abbrev pub Linked : (ℕ → Option (Task A)) → List (Task A) → Type 0
  Linked next [] = Unit
  Linked next (t ∷ ts) = (next t.address ≡ first_of ts) × Linked next ts

  -- The chain runs through the tasks of the list, from its head to its tail.
  abbrev pub Holds : Chain A → List (Task A) → Type 0
  Holds chain ts =
      (chain.first ≡ first_of ts)
      × ((chain.last ≡ last_of ts) × (Linked chain.next ts × Distinct ts))

  put_next-here :
      (t : Task A) (v : Option (Task A)) (next : ℕ → Option (Task A))
      → put_next t v next t.address ≡ v
  put_next-here t v next = let same : (t.address == t.address) ≡ true = ground arith in rw same refl

  put_next-away :
      (t : Task A) (v : Option (Task A)) (next : ℕ → Option (Task A)) (a : ℕ)
      → t.address ≢ a
      → put_next t v next a ≡ next a
  put_next-away t v next a h = let other : (t.address == a) ≡ false = ground arith in rw other refl

  Linked-put_next :
      (t : Task A) (v : Option (Task A)) (next : ℕ → Option (Task A)) (ts : List (Task A))
      → Away t.address ts
      → Linked next ts
      → Linked (put_next t v next) ts
  Linked-put_next t v next [] h k = tt
  Linked-put_next t v next (u ∷ ts) (hu, hs) (ku, ks) =
      (put_next-away t v next u.address (λ e. hu (sym e)) ∙ ku, Linked-put_next t v next ts hs ks)

  Away-last :
      (a : ℕ) (ts : List (Task A)) (l : Task A) → Away a ts → last_of ts ≡ some l → l.address ≢ a
  Away-last a [] l h e = absurd (ground arith)
  Away-last a (t ∷ []) l (h, _) e =
      let same : t ≡ l = ground arith in λ k. h (ap (λ x. x.address) same ∙ k)
  Away-last a (t ∷ u ∷ ts) l (_, hs) e = Away-last a (u ∷ ts) l hs e

  Away-snoc :
      (a : ℕ) (ts : List (Task A)) (t : Task A)
      → Away a ts
      → t.address ≢ a
      → Away a (ts ++ (t ∷ []))
  Away-snoc a [] t h k = (k, tt)
  Away-snoc a (u ∷ ts) t (hu, hs) k = (hu, Away-snoc a ts t hs k)

  Distinct-snoc :
      (ts : List (Task A)) (t : Task A)
      → Distinct ts
      → Away t.address ts
      → Distinct (ts ++ (t ∷ []))
  Distinct-snoc [] t h k = (tt, tt)
  Distinct-snoc (u ∷ ts) t (hu, hs) (ku, ks) =
      (Away-snoc u.address ts t hu (λ e. ku (sym e)), Distinct-snoc ts t hs ks)

  last_of-snoc : (ts : List (Task A)) (t : Task A) → last_of (ts ++ (t ∷ [])) ≡ some t
  last_of-snoc [] t = refl
  last_of-snoc (u ∷ []) t = refl
  last_of-snoc (u ∷ v ∷ ts) t = last_of-snoc (v ∷ ts) t

  Linked-snoc :
      (next : ℕ → Option (Task A)) (ts : List (Task A)) (t l : Task A)
      → Linked next ts
      → Distinct ts
      → Away t.address ts
      → last_of ts ≡ some l
      → Linked (put_next l (some t) (put_next t none next)) (ts ++ (t ∷ []))
  Linked-snoc next [] t l h d k e = absurd (ground arith)
  Linked-snoc next (u ∷ []) t l h d (ku, _) e =
      let same : u ≡ l = ground arith in
      let at_last : put_next l (some t) (put_next t none next) u.address ≡ some t =
        ap (λ x. put_next l (some t) (put_next t none next) x.address) same
        ∙ put_next-here l (some t) (put_next t none next) in
      let apart : l.address ≢ t.address = λ k. ku (ap (λ x. x.address) same ∙ k) in
      (
        at_last,
        (
          put_next-away l (some t) (put_next t none next) t.address apart
              ∙ put_next-here t none next,
          tt,
        ),
      )
  Linked-snoc next (u ∷ v ∷ ts) t l (hu, hs) (du, ds) (ku, ks) e =
      let apart = Away-last u.address (v ∷ ts) l du e in
      (
        put_next-away l (some t) (put_next t none next) u.address apart
            ∙ put_next-away t none next u.address (λ k. ku (sym k))
            ∙ hu,
        Linked-snoc next (v ∷ ts) t l hs ds ks e,
      )

  last_of-some : (t : Task A) (ts : List (Task A)) → (l : Task A) × (last_of (t ∷ ts) ≡ some l)
  last_of-some t [] = (t, refl)
  last_of-some t (u ∷ ts) = last_of-some u ts

  link_task-some :
      (task head last : Task A) (chain : Chain A)
      → chain.first ≡ some head
      → chain.last ≡ some last
      → link_task task chain
        ≡ done (record chain {
          last = some task;
          next = put_next last (some task) (put_next task none chain.next);
        })
  unfolding link_task behind_last
  link_task-some task head last chain first at_last =
      let next = put_next task none chain.next in
      let branch : Option (Task A) → Run (Chain A) = λ f. elim f [
        | none ↦ done (record { first = some task; last = some task; next = next })
        | some h ↦ behind_last task next chain
      ] in
      let inner : Option (Task A) → Run (Chain A) = λ l. elim l [
        | none ↦ fault
        | some x ↦ done (record chain { last = some task; next = put_next x (some task) next })
      ] in
      ap branch first ∙ ap inner at_last

  unlink_head-some :
      (t second : Task A) (chain : Chain A)
      → chain.next t.address ≡ some second
      → unlink_head t chain
        ≡ record chain { first = some second; next = put_next t none chain.next }
  unfolding unlink_head
  unlink_head-some t second chain link =
      let branch : Option (Task A) → Chain A = λ f. elim f [
        | none ↦ record { first = none; last = none; next = put_next t none chain.next }
        | some s ↦ record chain { first = some s; next = put_next t none chain.next }
      ] in
      ap branch link

  -- Both branches of a push put the task behind the last one, and the tail at it.
  pub link_task-Holds :
      (task : Task A) (chain : Chain A) (ts : List (Task A))
      → Holds chain ts
      → Away task.address ts
      → (linked : Chain A) × (link_task task chain ≡ done linked) × Holds linked (ts ++ (task ∷ []))
  unfolding link_task behind_last
  link_task-Holds task chain [] (first, (last, (links, apart))) away = (
    record { first = some task; last = some task; next = put_next task none chain.next },
    rw (link_task, first) refl,
    (refl, (refl, ((put_next-here task none chain.next, tt), (tt, tt)))),
  )
  link_task-Holds task chain (t ∷ ts) (first, (last, (links, apart))) away =
      let (l, at_last) = last_of-some t ts in
      let next = put_next l (some task) (put_next task none chain.next) in
      (
        record chain { last = some task; next = next },
        link_task-some task t l chain first (last ∙ at_last),
        (
          first,
          (
            sym (last_of-snoc (t ∷ ts) task),
            (
              Linked-snoc chain.next (t ∷ ts) task l links apart away at_last,
              Distinct-snoc (t ∷ ts) task apart away,
            ),
          ),
        ),
      )

  -- A chain without its head holds the others, and has no tail when there are none.
  pub unlink_head-Holds :
      (t : Task A) (ts : List (Task A)) (chain : Chain A)
      → Holds chain (t ∷ ts)
      → Holds (unlink_head t chain) ts
  unfolding unlink_head
  unlink_head-Holds t [] chain (first, (last, ((link, links), apart))) =
      rw (unlink_head, link) (refl, (refl, (tt, tt)))
  unlink_head-Holds t (u ∷ ts) chain (first, (last, ((link, links), (away, apart)))) =
      subst (λ c. Holds c (u ∷ ts)) (sym (unlink_head-some t u chain link))
        (refl, (last, (Linked-put_next t none chain.next (u ∷ ts) away links, apart)))
