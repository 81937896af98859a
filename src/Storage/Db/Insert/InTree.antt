-- ===== src/Storage/Db/Insert/InTree.antt =====
-- An insertion of storage/src/db.c in a well-formed tree puts the pair into the tree's list.
use codo.Prelude.{
  ℕ, ◌+◌, ◌≤◌, ◌<◌, ◌≡◌, refl, ◌∙◌, ap, sym, subst, Bool, false, Option, none, some, List, [], ◌∷◌,
  ◌++◌, arith, length, take, drop, Option-cases, inl, inr, ◌⊎◌, ap,
}
use codo.Storage.Memory.{Run, done, Ensures}
use codo.Storage.Page.{Page, kv_size, find_key_position}
use codo.Storage.Page.Entries.{Entry, Fits, Represents}
use codo.Storage.Page.Search.{IsFirstNotBelow, find_key_position-IsFirstNotBelow}
use codo.Storage.Page.Update.{insert_kv_pair-room}
use codo.Storage.Wal.{WriteResult, wal_insert}
use codo.Storage.Txn.{Transaction, active}
use codo.Storage.Db.{root_page_id, max_key_size, descend_to_leaf, at_leaf}
use codo.Storage.Db.Store.{Db, put_page, stamped, store_page, log_change}
use codo.Storage.Db.Delete.{max_value_size, Changed, success, failure, waiting}
use codo.Storage.Db.Tree.{Leaf, contents, Tree}
use codo.Storage.Db.Descend.{result_of}
use codo.Storage.Db.Search.{lookup}
use codo.Storage.Db.Chain.{AllLeaves, Linked, Linked-suffix, Tree-AllLeaves}
use codo.Storage.Db.Links.{AllLeaves-after, Absent-before, Absent-after, Linked-with_page}
use codo.Storage.Db.Removal.{stamped-Stamped, Stamped-Represents, log_change-pages}
use codo.Storage.Db.Grow.{btree_max_depth}
use codo.Storage.Db.Insert.{
  insert_payload, bad_lengths, inserted, insert_here, insert_from, db_insert,
}
use codo.Storage.Db.Insert.Descent.{descend_path_from-PathTo}
use codo.Storage.Db.Insert.Place.{Place, Tree-Place, with_page}
use codo.Storage.Db.Insert.Sorts.{with_entry, Ascending-with, Grows-with}
use codo.Storage.Db.Insert.Room.{
  lookup-around, with_entry-around, at_leaf_exists, at_leaf_room, at_the_leaf,
}

module _ (checksum : List ℕ → ℕ) (page_checksum : Page → ℕ) (can_grow : Bool) (h : ℕ)
    (txn : Transaction) (key value : List ℕ) (results : List WriteResult) where
  abbrev pub new_entry : Entry
  new_entry = record { key = key; value = value; child = 0 }

  -- The record of the insertion on a page, as the log takes it.
  abbrev pub record_insertion : Db → ℕ → Option (Db × List WriteResult)
  record_insertion db page_id =
      log_change checksum db txn.txn_id wal_insert page_id (insert_payload key value) results

  -- The state after the insertion: a well-formed, linked tree with the pair, and the log with its
  -- record.
  pub record Inserted (db : Db) (leaves : List Leaf) (db' : Db) (rest : List WriteResult)
      : Type 0 where
    pub page_id : ℕ
    pub logged : Db
    pub log : record_insertion db page_id ≡ some (logged, rest)
    pub engine : db'.engine ≡ logged.engine
    pub more : List Leaf
    pub tree : Tree db'.pages h root_page_id more
    pub linked : Linked more
    pub contents_are : contents more ≡ with_entry new_entry (contents leaves)

  -- How an insertion ends, by what the tree has under the key.
  abbrev pub Inserts : Db → List Leaf → Option (List ℕ) → Changed → Type 0
  Inserts db leaves (some old) c = c ≡ failure db results
  Inserts db leaves none c =
      ((db' : Db) × (rest : List WriteResult) × (c ≡ success db' rest)
        × Inserted db leaves db' rest)
      ⊎ ((c ≡ waiting) × (page_id : ℕ) × (record_insertion db page_id ≡ none))

  module _ (db : Db) (leaves : List Leaf) (tree : Tree db.pages h root_page_id leaves)
      (linked : Linked leaves) (place : Place db.pages key h btree_max_depth root_page_id leaves)
      (r : ℕ) (first : IsFirstNotBelow place.leaf.entries key r) where
    abbrev leaf : Leaf
    leaf = place.leaf

    abbrev with_new : List Entry
    with_new = take r leaf.entries ++ (new_entry ∷ drop r leaf.entries)

    put_in :
        (page' : Page) (logged : Db) (rest : List WriteResult)
        → lookup key leaf.entries ≡ none
        → Represents page' with_new
        → page'.page_type ≡ leaf.page.page_type
        → page'.next_page_id ≡ leaf.page.next_page_id
        → record_insertion db leaf.id ≡ some (logged, rest)
        → Inserted db leaves (store_page page_checksum leaf.id page' logged) rest
    unfolding store_page
    put_in page' logged rest gone holds type next log =
        let q = stamped page_checksum logged page' in
        let stamp = stamped-Stamped page_checksum logged page' in
        let all =
          subst (AllLeaves db.pages) place.around
            (Tree-AllLeaves db.pages h root_page_id leaves tree) in
        let chain = subst Linked place.around linked in
        let pages_same =
          log_change-pages checksum db txn.txn_id wal_insert leaf.id (insert_payload key value)
            results logged rest log in
        let rebuilt =
          place.rebuild q with_new (stamp.same_type ∙ type ∙ place.is_leaf.kind)
            (Stamped-Represents page' q with_new stamp holds)
            (Ascending-with new_entry leaf.entries r first gone place.is_leaf.sorted)
            (Grows-with new_entry leaf.entries r)
            (Absent-before db.pages place.before leaf place.after all chain)
            (Absent-after db.pages leaf [] place.after
              (AllLeaves-after db.pages place.before (leaf ∷ place.after) all)
              (Linked-suffix place.before leaf place.after chain)) in
        record {
          page_id = leaf.id;
          logged = logged;
          log = log;
          engine = refl;
          more = place.before ++ (with_page leaf q with_new ∷ place.after);
          tree =
              subst
                (λ pages.
                  Tree (put_page leaf.id q pages) h root_page_id
                    (place.before ++ (with_page leaf q with_new ∷ place.after)))
                (sym pages_same) rebuilt;
          linked =
              Linked-with_page place.before leaf (with_page leaf q with_new) place.after refl
                (stamp.same_next ∙ next) chain;
          contents_are =
              with_entry-around new_entry place.before leaf place.after q r place.below place.above
                first gone
              ∙ ap (λ ls. with_entry new_entry (contents ls)) (sym place.around);
        }

    -- With room on the leaf.
    insert_here-Inserts :
        lookup key leaf.entries ≡ none
        → Fits new_entry
        → kv_size + length key + length value ≤ leaf.page.free_space
        → Ensures
            (insert_here checksum page_checksum can_grow txn key value db leaf.id leaf.page r
              results)
            (Inserts db leaves none)
    unfolding insert_here inserted
    insert_here-Inserts gone fits room =
        let (page', put, holds, type, next) =
          insert_kv_pair-room leaf.page leaf.entries place.is_leaf.holds r new_entry first.inside
            fits room in
        elim (Option-cases (record_insertion db leaf.id)) [
          | inl stuck ↦ rw (stuck, insert_here) (inr (refl, leaf.id, stuck))
          | inr ((logged, rest), log) ↦
              rw (log, put, insert_here)
                (inl (
                  store_page page_checksum leaf.id page' logged,
                  rest,
                  refl,
                  put_in page' logged rest gone holds type next log,
                ))
        ]

lengths_fine :
    (key value : List ℕ)
    → 0 < length key
    → length key ≤ max_key_size
    → length value ≤ max_value_size
    → bad_lengths key value ≡ false
unfolding bad_lengths
lengths_fine key value some_key short small = ground arith

-- In an active transaction, with a key of 1 to 256 bytes and a value of at most 1024, on a
-- well-formed tree of a height below 32 whose leaves are linked, and with room for the pair on the
-- leaf that owns the key: if a pair has the key, the insertion returns -1 and changes nothing. If
-- none has it, the record goes to the log, whose result is ignored; when that call has returned,
-- the insertion returns 0 with a well-formed tree whose leaves are linked and whose pairs are the
-- old ones and the new one in the order of the keys; while write(2) has not returned, it waits.
pub db_insert-Inserts :
    (checksum : List ℕ → ℕ) (page_checksum : Page → ℕ) (can_grow : Bool) (h : ℕ) (db : Db)
    (txn : Transaction) (leaves : List Leaf) (key value : List ℕ) (results : List WriteResult)
    → txn.state ≡ active
    → 0 < length key
    → length key ≤ max_key_size
    → length value ≤ max_value_size
    → h < btree_max_depth
    → Tree db.pages h root_page_id leaves
    → Linked leaves
    → ((id : ℕ) (page : Page)
        → descend_to_leaf btree_max_depth db.pages key ≡ done (at_leaf id page)
        → kv_size + length key + length value ≤ page.free_space)
    → Ensures (db_insert checksum page_checksum can_grow txn key value db results) (
        Inserts checksum page_checksum can_grow h txn key value results db leaves
          (lookup key (contents leaves)))
unfolding descend_to_leaf
db_insert-Inserts checksum page_checksum can_grow h db txn leaves key value results running some_key
      short small low tree linked room =
    let place = Tree-Place db.pages key h btree_max_depth root_page_id leaves low tree in
    let path =
      descend_path_from-PathTo db.pages key h btree_max_depth root_page_id leaves low tree in
    let leaf = place.leaf in
    let ends = path.ends in
    let ends' = place.ends in
    let same_id : path.leaf_id ≡ leaf.id = cc in
    let (r, found, first) =
      result_of (find_key_position leaf.page key) (IsFirstNotBelow leaf.entries key) (
        find_key_position-IsFirstNotBelow leaf.page leaf.entries place.is_leaf.holds
          place.is_leaf.sorted key) in
    let owned : lookup key (contents leaves) ≡ lookup key leaf.entries =
      ap (λ ls. lookup key (contents ls)) place.around
      ∙ lookup-around key place.before leaf place.after place.below place.above in
    let again : Db → Run Changed =
      λ db'. insert_from checksum page_checksum can_grow txn key value 31 db' results in
    let ran =
      at_the_leaf checksum page_checksum can_grow txn key value db results path.ids leaf.id
        leaf.page running (lengths_fine key value some_key short small) path.path
        (path.last ∙ ap some same_id) place.is_leaf.there in
    elim (Option-cases (lookup key leaf.entries)) [
      | inr (old, there) ↦
          rw (owned, there, ran)
            (rw
              (at_leaf_exists checksum page_checksum can_grow txn key value again db leaf.id
                leaf.page results leaf.entries place.is_leaf.holds r first found old
                place.is_leaf.sorted there)
              refl)
      | inl gone ↦
          rw (owned, gone, ran)
            (rw
              (at_leaf_room checksum page_checksum can_grow txn key value again db leaf.id leaf.page
                results leaf.entries place.is_leaf.holds r first found gone
                (room leaf.id leaf.page place.ends))
              (insert_here-Inserts checksum page_checksum can_grow h txn key value results db leaves
                tree linked place r first gone
                (record {
                  key_fits = omega arith;
                  value_fits = omega arith;
                  child_fits = omega arith;
                })
                (room leaf.id leaf.page place.ends)))
    ]
