-- ===== src/Storage/Db/Insert/Whole.antt =====
-- `db_insert` of storage/src/db.c as a whole, in pages that may hold anything.
use codo.Prelude.{
  ℕ, zero, suc, ◌+◌, Bool, true, false, not, ◌||◌, Option, none, some, List, ltb, length,
  Bool-cases, Option-cases, inl, inr,
}
use codo.Storage.Memory.{Run, Ensures, >>=-Ensures}
use codo.Storage.Page.{Page, kv_size, find_key_position, get_kv_pair, insert_kv_pair}
use codo.Storage.Page.Safety.{
  HasArea, KeepsArea, Located, load_key_in, get_kv_pair-Located, insert_kv_pair-KeepsArea,
}
use codo.Storage.Wal.{WriteResult, wal_insert}
use codo.Storage.Txn.{Transaction}
use codo.Storage.Db.{root_page_id, is_active}
use codo.Storage.Db.Store.{Db, log_change}
use codo.Storage.Db.Delete.{Changed, success, failure, waiting}
use codo.Storage.Db.Removal.{log_change-pages}
use codo.Storage.Db.Grow.{btree_max_depth, descend_path_from, descend_path, btree_split_node}
use codo.Storage.Db.Insert.Safety.{
  Sized, Sized-store_page, find_key_position_safe, descend_path_from_safe, StepSized,
}
use codo.Storage.Db.Insert.{
  last_id, insert_payload, key_exists, bad_lengths, inserted, insert_here, insert_at_leaf,
  insert_from, db_insert,
}
use codo.Storage.Db.Insert.Growth.{btree_split_node-Sized}

-- What an insertion leaves.
abbrev pub ChangedSized : Changed → Type 0
ChangedSized (success db rest) = Sized db.pages
ChangedSized (failure db rest) = Sized db.pages
ChangedSized waiting = Unit

key_exists_safe :
    (page : Page) (key : List ℕ) (found : Option ℕ)
    → HasArea page
    → Located page.area found
    → Ensures (key_exists page key found) (λ _. Unit)
unfolding key_exists
key_exists_safe page key none size inside = tt
key_exists_safe page key (some off) size inside = rw (load_key_in page.area off size inside) tt

module _ (checksum : List ℕ → ℕ) (page_checksum : Page → ℕ) (can_grow : Bool) (txn : Transaction)
    (key value : List ℕ) where
  insert_here-Sized :
      (db : Db) (page_id : ℕ) (page : Page) (pos : ℕ) (results : List WriteResult)
      → Sized db.pages
      → HasArea page
      → Ensures
          (insert_here checksum page_checksum can_grow txn key value db page_id page pos results)
          ChangedSized
  unfolding insert_here inserted
  insert_here-Sized db page_id page pos results sized size =
      let payload = insert_payload key value in
      let logged = log_change checksum db txn.txn_id wal_insert page_id payload results in
      elim (Option-cases logged) [
        | inl stuck ↦ rw (stuck, insert_here) tt
        | inr ((db', rest), log) ↦
            rw (log, insert_here)
              (let same =
                  log_change-pages checksum db txn.txn_id wal_insert page_id payload results db'
                    rest log in
                let sized' : Sized db'.pages = rw same sized in
                >>=-Ensures (insert_kv_pair page pos key value 0) _ KeepsArea ChangedSized
                  (insert_kv_pair-KeepsArea page size pos key value 0)
                  (elim [
                    | none ↦ λ _. sized'
                    | some left ↦
                        λ here. Sized-store_page page_checksum page_id left db' sized' here
                  ]))
      ]

  insert_at_leaf-Sized :
      (again : Db → Run Changed) (db : Db) (page_id : ℕ) (page : Page) (results : List WriteResult)
      → ((db' : Db) → Sized db'.pages → Ensures (again db') ChangedSized)
      → Sized db.pages
      → HasArea page
      → Ensures
          (insert_at_leaf checksum page_checksum can_grow txn key value again db page_id page
            results)
          ChangedSized
  unfolding insert_at_leaf
  insert_at_leaf-Sized again db page_id page results next sized size =
      >>=-Ensures (find_key_position page key) _ (λ _. Unit) ChangedSized
        (find_key_position_safe page key size)
        (λ pos _.
          >>=-Ensures (get_kv_pair page pos) _ (Located page.area) ChangedSized
            (get_kv_pair-Located page pos size)
            (λ found inside.
              >>=-Ensures (key_exists page key found) _ (λ _. Unit) ChangedSized
                (key_exists_safe page key found size inside)
                (elim [
                  | true ↦ λ _. sized
                  | false ↦ λ _.
                      elim (Bool-cases
                        (ltb page.free_space (kv_size + length key + length value))) [
                          | inr room ↦
                              rw room (insert_here-Sized db page_id page pos results sized size)
                          | inl crowded ↦ rw crowded (
                              >>=-Ensures
                                (btree_split_node page_checksum can_grow btree_max_depth page_id db)
                                _ StepSized ChangedSized
                                (btree_split_node-Sized page_checksum can_grow btree_max_depth
                                  page_id db sized)
                                (λ r h. elim (Bool-cases (r.1)) [
                                  | inl ok ↦ rw ok (next r.0 h)
                                  | inr failed ↦ rw failed h
                                ]))
                        ]
                ])))

  insert_from-Sized :
      (attempts : ℕ) (db : Db) (results : List WriteResult)
      → Sized db.pages
      → Ensures
          (insert_from checksum page_checksum can_grow txn key value attempts db results)
          ChangedSized
  unfolding insert_from descend_path
  insert_from-Sized zero db results sized = sized
  insert_from-Sized (suc attempts) db results sized =
      >>=-Ensures (descend_path_from btree_max_depth db.pages key root_page_id) _ (λ _. Unit)
        ChangedSized (descend_path_from_safe btree_max_depth db.pages key root_page_id sized)
        (elim [
          | none ↦ λ _. sized
          | some ids ↦ λ _. elim (Option-cases (last_id ids)) [
            | inl gone ↦ rw gone sized
            | inr (page_id, last) ↦ rw last (elim (Option-cases (db.pages page_id)) [
              | inl gone ↦ rw gone sized
              | inr (page, there) ↦ rw there (
                  insert_at_leaf-Sized _ db page_id page results
                    (λ db' h. insert_from-Sized attempts db' results h) sized
                    (sized page_id page there))
            ])
          ]
        ])

  -- An insertion into pages that may hold anything, in any state of the transaction and with any
  -- key and value, makes no access outside a page, and leaves every page with a data area of the
  -- right size, also where it fails half way and where the page given for a split is the node
  -- itself; or it is still waiting for a write(2) of the log, of which nothing is claimed.
  pub db_insert-Sized :
      (db : Db) (results : List WriteResult)
      → Sized db.pages
      → Ensures (db_insert checksum page_checksum can_grow txn key value db results) ChangedSized
  unfolding db_insert
  db_insert-Sized db results sized =
      elim (Bool-cases (not (is_active txn.state) || bad_lengths key value)) [
        | inl refused ↦ rw (refused, db_insert) sized
        | inr fine ↦ rw (fine, db_insert) (insert_from-Sized btree_max_depth db results sized)
      ]
