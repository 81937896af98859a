-- ===== src/Todo/Index/Repair.antt =====
-- `apply_index_repairs` of api/src/todo_index.c: the merge of the pairs that the rows call for with
-- the pairs that the index holds.
pub mod Plans
pub mod Laws
use Prim.Native.Nat.{Ordering}
use codo.Prelude.{
  ℕ, suc, ◌+◌, Bool, true, false, ◌≡◌, ◌||◌, Option, none, some, List, [], ◌∷◌, if◌then◌else◌,
}
use codo.Todo.Index.{OwnerPair, pair_compare}

-- What the repair calls: `todo_index_insert` and `todo_index_delete` inside the repair transaction,
-- which take the index from one state to the next, or return `none` for -1. Nothing else is asked of
-- them.
pub record IndexStore : Type 1 where
  pub State : Type 0
  pub insert_entry : OwnerPair → State → Option State
  pub delete_entry : OwnerPair → State → Option State

pub record RepairStats : Type 0 where
  pub inserted : ℕ
  pub deleted : ℕ
  pub failed : ℕ

module _ (store : IndexStore) where
  open store use {State, insert_entry, delete_entry}

  pub record Repair : Type 0 where
    pub index : State
    pub stats : RepairStats
    pub opened : Bool

  unfoldable pub add_entry : OwnerPair → Repair → Repair
  add_entry p r = elim (insert_entry p r.index) [
    | some index ↦ record r {
      index = index;
      stats = record (r.stats) { inserted = r.stats.inserted + 1 };
    }
    | none ↦ record r { stats = record (r.stats) { failed = r.stats.failed + 1 } }
  ]

  unfoldable pub drop_entry : OwnerPair → Repair → Repair
  drop_entry p r = elim (delete_entry p r.index) [
    | some index ↦ record r {
      index = index;
      stats = record (r.stats) { deleted = r.stats.deleted + 1 };
    }
    | none ↦ record r { stats = record (r.stats) { failed = r.stats.failed + 1 } }
  ]

  -- The repair transaction is opened on the first change; `can_begin` is whether
  -- `begin_transaction` returns one.
  unfoldable pub open_repair : Bool → Repair → Option Repair
  open_repair can_begin r =
      if r.opened || can_begin then some (record r { opened = true }) else none

  abbrev pub give_up : Repair → Repair
  give_up r = record r { stats = record (r.stats) { failed = r.stats.failed + 1 } }

  -- The loop, over the pairs that are left on each side.
  unfoldable pub apply_from : Bool → List OwnerPair → List OwnerPair → Repair → Repair
  apply_from can_begin [] [] r = r
  apply_from can_begin [] (h ∷ have) r = elim (open_repair can_begin r) [
    | none ↦ give_up r
    | some r' ↦ apply_from can_begin [] have (drop_entry h r')
  ]
  apply_from can_begin (w ∷ wanted) [] r = elim (open_repair can_begin r) [
    | none ↦ give_up r
    | some r' ↦ apply_from can_begin wanted [] (add_entry w r')
  ]
  apply_from can_begin (w ∷ wanted) (h ∷ have) r = elim (pair_compare w h) [
    | Ordering.eq ↦ apply_from can_begin wanted have r
    | Ordering.lt ↦ elim (open_repair can_begin r) [
      | none ↦ give_up r
      | some r' ↦ apply_from can_begin wanted (h ∷ have) (add_entry w r')
    ]
    | Ordering.gt ↦ elim (open_repair can_begin r) [
      | none ↦ give_up r
      | some r' ↦ apply_from can_begin (w ∷ wanted) have (drop_entry h r')
    ]
  ]

  unfoldable pub apply_index_repairs : Bool → List OwnerPair → List OwnerPair → State → Repair
  apply_index_repairs can_begin wanted have index = apply_from can_begin wanted have (record {
    index = index;
    stats = record { inserted = 0; deleted = 0; failed = 0 };
    opened = false;
  })
