-- ===== src/Tests/Keys.antt =====
-- api/src/todo_index.c at concrete ids.
use codo.Prelude.{ℕ, ◌≡◌, refl, true, some, List, [], ◌∷◌, arith}
use codo.Storage.Page.{compare_keys}
use codo.Todo.Index.{OwnerPair, index_text, todo_index_key, todo_index_key_parse, pair_compare}
use codo.Todo.Index.Order.{todo_index_key_parse-todo_index_key, compare_keys-index_text}
use codo.Todo.Index.Repair.{
  IndexStore, apply_index_repairs, apply_from, open_repair, add_entry, drop_entry,
}
use codo.Todo.Index.Repair.Plans.{Ascending, Change, added, removed, IsPlan}
use codo.Todo.Index.Repair.Laws.{perform, apply_index_repairs-IsPlan}

todo_index_key_parse-todo_index_key_example :
    (key : List ℕ) × (todo_index_key 64 12 345 ≡ some key)
    × (todo_index_key_parse key ≡ some (12, 345))
todo_index_key_parse-todo_index_key_example =
    todo_index_key_parse-todo_index_key 12 345 (omega arith) (omega arith) 64 (omega arith)

abbrev pair : ℕ → ℕ → OwnerPair
pair user_id todo_id = record { user_id = user_id; todo_id = todo_id }

compare_keys-index_text_example :
    compare_keys (index_text 7 100) (index_text 30 2) ≡ pair_compare (pair 7 100) (pair 30 2)
compare_keys-index_text_example =
    compare_keys-index_text (pair 7 100) (pair 30 2) (omega arith) (omega arith) (omega arith)
      (omega arith)

-- An index kept as the list of its changes.
abbrev change_log : IndexStore
change_log = record {
  State = List Change;
  insert_entry = λ p s. some (added p ∷ s);
  delete_entry = λ p s. some (removed p ∷ s);
}

abbrev called_for : List OwnerPair
called_for = pair 1 2 ∷ pair 1 5 ∷ pair 3 4 ∷ []

abbrev held_before : List OwnerPair
held_before = pair 1 2 ∷ pair 2 9 ∷ []

called_for-Ascending : Ascending called_for
unfolding pair_compare
called_for-Ascending = ((refl, (refl, tt)), ((refl, tt), (tt, tt)))

held_before-Ascending : Ascending held_before
unfolding pair_compare
held_before-Ascending = ((refl, tt), (tt, tt))

none_failed : (apply_index_repairs change_log true called_for held_before []).stats.failed ≡ 0
unfolding apply_index_repairs apply_from pair_compare open_repair add_entry drop_entry
none_failed = refl

apply_index_repairs-IsPlan_example :
    (changes : List Change) × IsPlan called_for held_before changes
    × (perform change_log changes []
        ≡ some (apply_index_repairs change_log true called_for held_before []).index)
apply_index_repairs-IsPlan_example =
    apply_index_repairs-IsPlan change_log true called_for held_before [] called_for-Ascending
      held_before-Ascending none_failed
