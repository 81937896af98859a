-- ===== src/Todo/Index/Repair/Laws.antt =====
-- What a repair of api/src/todo_index.c with no failure does to the index.
use Prim.Native.Nat.{Ordering}
use codo.Prelude.{
  ◌≤◌, ◌≡◌, refl, sym, subst, Bool, true, false, ◌||◌, Option, none, some, List, [], ◌∷◌, arith,
  inl, inr, Bool-cases,
}
use codo.Storage.Page.Keys.{Ordering-cases}
use codo.Todo.Index.{OwnerPair, pair_compare}
use codo.Todo.Index.Repair.{
  IndexStore, Repair, add_entry, drop_entry, open_repair, apply_from, apply_index_repairs,
}
use codo.Todo.Index.Repair.Plans.{
  Ascending, Above-trans, pair_compare_flip, Change, added, removed, IsPlan, IsPlan-nil, IsPlan-add,
  IsPlan-drop, IsPlan-both,
}

module _ (store : IndexStore) where
  open store use {State, insert_entry, delete_entry}

  abbrev open_mark : Repair store → Repair store
  open_mark r = record r { opened = true }

  -- Changes made one after the other: `none` when one fails.
  unfoldable pub perform : List Change → State → Option State
  perform [] s = some s
  perform (added p ∷ changes) s = elim (insert_entry p s) [
    | none ↦ none
    | some s' ↦ perform changes s'
  ]
  perform (removed p ∷ changes) s = elim (delete_entry p s) [
    | none ↦ none
    | some s' ↦ perform changes s'
  ]

  add_entry_ok :
      (w : OwnerPair) (r : Repair store)
      → (add_entry store w r).stats.failed ≤ r.stats.failed
      → insert_entry w r.index ≡ some (add_entry store w r).index
  unfolding add_entry
  add_entry_ok w r h = ground arith

  drop_entry_ok :
      (w : OwnerPair) (r : Repair store)
      → (drop_entry store w r).stats.failed ≤ r.stats.failed
      → delete_entry w r.index ≡ some (drop_entry store w r).index
  unfolding drop_entry
  drop_entry_ok w r h = ground arith

  add_entry_grows :
      (w : OwnerPair) (r : Repair store) → r.stats.failed ≤ (add_entry store w r).stats.failed
  unfolding add_entry
  add_entry_grows w r = ground arith

  drop_entry_grows :
      (w : OwnerPair) (r : Repair store) → r.stats.failed ≤ (drop_entry store w r).stats.failed
  unfolding drop_entry
  drop_entry_grows w r = ground arith

  module _ (can_begin : Bool) where
    failed-grows :
        (wanted have : List OwnerPair) (r : Repair store)
        → r.stats.failed ≤ (apply_from store can_begin wanted have r).stats.failed
    unfolding apply_from open_repair
    failed-grows [] [] r = ground arith
    failed-grows [] (h ∷ have) r = ground (
      arith,
      failed-grows [] have (drop_entry store h (open_mark r)),
      drop_entry_grows h (open_mark r),
    )
    failed-grows (w ∷ wanted) [] r = ground (
      arith,
      failed-grows wanted [] (add_entry store w (open_mark r)),
      add_entry_grows w (open_mark r),
    )
    failed-grows (w ∷ wanted) (h ∷ have) r = ground (
      arith,
      failed-grows wanted have r,
      failed-grows wanted (h ∷ have) (add_entry store w (open_mark r)),
      failed-grows (w ∷ wanted) have (drop_entry store h (open_mark r)),
      add_entry_grows w (open_mark r),
      drop_entry_grows h (open_mark r),
    )

    step-drop :
        (p : OwnerPair) (have : List OwnerPair) (r : Repair store)
        → (apply_from store can_begin [] (p ∷ have) r).stats.failed ≤ r.stats.failed
        → apply_from store can_begin [] (p ∷ have) r
          ≡ apply_from store can_begin [] have (drop_entry store p (open_mark r))
    unfolding apply_from open_repair
    step-drop p have r h = elim (Bool-cases (r.opened || can_begin)) [
      | inl t ↦ rw (apply_from, open_repair, t) refl
      | inr t ↦ absurd (ground (arith, t, h))
    ]

    step-add :
        (w : OwnerPair) (wanted : List OwnerPair) (r : Repair store)
        → (apply_from store can_begin (w ∷ wanted) [] r).stats.failed ≤ r.stats.failed
        → apply_from store can_begin (w ∷ wanted) [] r
          ≡ apply_from store can_begin wanted [] (add_entry store w (open_mark r))
    unfolding apply_from open_repair
    step-add w wanted r h = elim (Bool-cases (r.opened || can_begin)) [
      | inl t ↦ rw (apply_from, open_repair, t) refl
      | inr t ↦ absurd (ground (arith, t, h))
    ]

    step-add_before :
        (w p : OwnerPair) (wanted have : List OwnerPair) (r : Repair store)
        → pair_compare w p ≡ Ordering.lt
        → (apply_from store can_begin (w ∷ wanted) (p ∷ have) r).stats.failed ≤ r.stats.failed
        → apply_from store can_begin (w ∷ wanted) (p ∷ have) r
          ≡ apply_from store can_begin wanted (p ∷ have) (add_entry store w (open_mark r))
    unfolding apply_from open_repair
    step-add_before w p wanted have r lt h = elim (Bool-cases (r.opened || can_begin)) [
      | inl t ↦ rw (apply_from, lt, open_repair, t) refl
      | inr t ↦ absurd (ground (arith, t, h))
    ]

    step-drop_before :
        (w p : OwnerPair) (wanted have : List OwnerPair) (r : Repair store)
        → pair_compare w p ≡ Ordering.gt
        → (apply_from store can_begin (w ∷ wanted) (p ∷ have) r).stats.failed ≤ r.stats.failed
        → apply_from store can_begin (w ∷ wanted) (p ∷ have) r
          ≡ apply_from store can_begin (w ∷ wanted) have (drop_entry store p (open_mark r))
    unfolding apply_from open_repair
    step-drop_before w p wanted have r gt h = elim (Bool-cases (r.opened || can_begin)) [
      | inl t ↦ rw (apply_from, gt, open_repair, t) refl
      | inr t ↦ absurd (ground (arith, t, h))
    ]

    step-both :
        (w p : OwnerPair) (wanted have : List OwnerPair) (r : Repair store)
        → pair_compare w p ≡ Ordering.eq
        → apply_from store can_begin (w ∷ wanted) (p ∷ have) r
          ≡ apply_from store can_begin wanted have r
    unfolding apply_from
    step-both w p wanted have r eq = rw (apply_from, eq) refl

    -- The changes between two repairs.
    abbrev Leads : List OwnerPair → List OwnerPair → Repair store → Repair store → Type 0
    Leads wanted have r last =
        (changes : List Change) × IsPlan wanted have changes
        × (perform changes r.index ≡ some last.index)

    leads-drop :
        (p : OwnerPair) (r last : Repair store) (changes : List Change)
        → (drop_entry store p (open_mark r)).stats.failed ≤ r.stats.failed
        → perform changes (drop_entry store p (open_mark r)).index ≡ some last.index
        → perform (removed p ∷ changes) r.index ≡ some last.index
    unfolding perform
    leads-drop p r last changes h run = rw (perform, drop_entry_ok p (open_mark r) h) run

    leads-add :
        (w : OwnerPair) (r last : Repair store) (changes : List Change)
        → (add_entry store w (open_mark r)).stats.failed ≤ r.stats.failed
        → perform changes (add_entry store w (open_mark r)).index ≡ some last.index
        → perform (added w ∷ changes) r.index ≡ some last.index
    unfolding perform
    leads-add w r last changes h run = rw (perform, add_entry_ok w (open_mark r) h) run

    repaired :
        (wanted have : List OwnerPair) (r : Repair store)
        → Ascending wanted
        → Ascending have
        → (apply_from store can_begin wanted have r).stats.failed ≤ r.stats.failed
        → Leads wanted have r (apply_from store can_begin wanted have r)
    unfolding apply_from perform
    repaired [] [] r aw ah h = ([], IsPlan-nil, refl)
    repaired [] (p ∷ have) r aw ah h =
        let r' = drop_entry store p (open_mark r) in
        let step = step-drop p have r h in
        let less : (apply_from store can_begin [] have r').stats.failed ≤ r.stats.failed =
          subst (λ x. x.stats.failed ≤ r.stats.failed) step h in
        let grows = drop_entry_grows p (open_mark r) in
        let more = failed-grows [] have r' in
        let (changes, plan, run) = repaired [] have r' aw ah.1 (omega arith) in
        subst (Leads [] (p ∷ have) r) (sym step) (
          removed p ∷ changes,
          IsPlan-drop [] p have changes tt plan,
          leads-drop p r (apply_from store can_begin [] have r') changes (omega arith) run,
        )
    repaired (w ∷ wanted) [] r aw ah h =
        let r' = add_entry store w (open_mark r) in
        let step = step-add w wanted r h in
        let less : (apply_from store can_begin wanted [] r').stats.failed ≤ r.stats.failed =
          subst (λ x. x.stats.failed ≤ r.stats.failed) step h in
        let grows = add_entry_grows w (open_mark r) in
        let more = failed-grows wanted [] r' in
        let (changes, plan, run) = repaired wanted [] r' aw.1 ah (omega arith) in
        subst (Leads (w ∷ wanted) [] r) (sym step) (
          added w ∷ changes,
          IsPlan-add w wanted [] changes tt plan,
          leads-add w r (apply_from store can_begin wanted [] r') changes (omega arith) run,
        )
    repaired (w ∷ wanted) (p ∷ have) r aw ah h = elim (Ordering-cases (pair_compare w p)) [
      | inl lt ↦
          let r' = add_entry store w (open_mark r) in
          let step = step-add_before w p wanted have r lt h in
          let less : (apply_from store can_begin wanted (p ∷ have) r').stats.failed
              ≤ r.stats.failed =
            subst (λ x. x.stats.failed ≤ r.stats.failed) step h in
          let grows = add_entry_grows w (open_mark r) in
          let more = failed-grows wanted (p ∷ have) r' in
          let (changes, plan, run) = repaired wanted (p ∷ have) r' aw.1 ah (omega arith) in
          subst (Leads (w ∷ wanted) (p ∷ have) r) (sym step) (
            added w ∷ changes,
            IsPlan-add w wanted (p ∷ have) changes (lt, Above-trans w p have lt ah.0) plan,
            leads-add w r (apply_from store can_begin wanted (p ∷ have) r') changes (omega arith)
                run,
          )
      | inr (inl eq) ↦
          let step = step-both w p wanted have r eq in
          let less : (apply_from store can_begin wanted have r).stats.failed ≤ r.stats.failed =
            subst (λ x. x.stats.failed ≤ r.stats.failed) step h in
          let (changes, plan, run) = repaired wanted have r aw.1 ah.1 less in
          subst (Leads (w ∷ wanted) (p ∷ have) r) (sym step)
            (changes, IsPlan-both w p wanted have changes eq aw.0 ah.0 plan, run)
      | inr (inr gt) ↦
          let r' = drop_entry store p (open_mark r) in
          let step = step-drop_before w p wanted have r gt h in
          let before = pair_compare_flip w p gt in
          let less : (apply_from store can_begin (w ∷ wanted) have r').stats.failed
              ≤ r.stats.failed =
            subst (λ x. x.stats.failed ≤ r.stats.failed) step h in
          let grows = drop_entry_grows p (open_mark r) in
          let more = failed-grows (w ∷ wanted) have r' in
          let (changes, plan, run) = repaired (w ∷ wanted) have r' aw ah.1 (omega arith) in
          subst (Leads (w ∷ wanted) (p ∷ have) r) (sym step) (
            removed p ∷ changes,
            IsPlan-drop (w ∷ wanted) p have changes (before, Above-trans p w wanted before aw.0)
                plan,
            leads-drop p r (apply_from store can_begin (w ∷ wanted) have r') changes (omega arith)
                run,
          )
    ]

  -- If both lists ascend and no change fails, the repair makes changes one after the other: it adds
  -- exactly the pairs that the rows call for and the index is listed without, and removes exactly
  -- those that are listed and not called for.
  pub apply_index_repairs-IsPlan :
      (can_begin : Bool) (wanted have : List OwnerPair) (s : State)
      → Ascending wanted
      → Ascending have
      → (apply_index_repairs store can_begin wanted have s).stats.failed ≡ 0
      → (changes : List Change) × IsPlan wanted have changes
        × (perform changes s ≡ some (apply_index_repairs store can_begin wanted have s).index)
  unfolding apply_index_repairs
  apply_index_repairs-IsPlan can_begin wanted have s aw ah none_failed =
      repaired can_begin wanted have
        (record {
          index = s;
          stats = record { inserted = 0; deleted = 0; failed = 0 };
          opened = false;
        })
        aw ah (omega (arith, none_failed))
