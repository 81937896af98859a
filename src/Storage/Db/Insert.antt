-- ===== src/Storage/Db/Insert.antt =====
-- `db_insert` of storage/src/db.c.
pub mod Safety
pub mod Growth
pub mod Whole
pub mod Descent
pub mod Slots
pub mod Place
pub mod Sorts
pub mod Room
pub mod InTree
use Prim.Native.Nat.{Ordering}
use codo.Prelude.{
  ℕ, zero, suc, ◌+◌, Bool, true, false, not, ◌||◌, Option, none, some, List, [], ◌∷◌, ◌++◌, ltb,
  ◌==◌, length,
}
use codo.Storage.Memory.{Run, done, ◌>>=◌}
use codo.Storage.Page.{
  Page, kv_size, load_key, compare_keys, get_kv_pair, find_key_position, insert_kv_pair,
}
use codo.Storage.Wal.{WriteResult, WalRecordType, wal_insert, little_endian}
use codo.Storage.Txn.{Transaction}
use codo.Storage.Db.{is_active, is_eq, max_key_size}
use codo.Storage.Db.Store.{Db, store_page, log_change}
use codo.Storage.Db.Delete.{max_value_size, Changed, success, failure, waiting}
use codo.Storage.Db.Grow.{btree_max_depth, descend_path, btree_split_node}

-- The last id of a path, which is never empty.
unfoldable pub last_id : List ℕ → Option ℕ
last_id [] = none
last_id (id ∷ []) = some id
last_id (id ∷ next ∷ rest) = last_id (next ∷ rest)

unfoldable pub insert_payload : List ℕ → List ℕ → List ℕ
insert_payload key value =
    little_endian 8 (length key) ++ (little_endian 8 (length value) ++ (key ++ value))

-- Whether the pair at the position has the key.
unfoldable pub key_exists : Page → List ℕ → Option ℕ → Run Bool
key_exists page key none = done false
key_exists page key (some off) =
    load_key page.area off >>= λ kv_key. done (is_eq (compare_keys key kv_key))

-- The lengths that `db_insert` turns away.
unfoldable pub bad_lengths : List ℕ → List ℕ → Bool
bad_lengths key value =
    length key == 0 || (ltb max_key_size (length key) || ltb max_value_size (length value))

module _ (checksum : List ℕ → ℕ) (page_checksum : Page → ℕ) (can_grow : Bool) (txn : Transaction)
    (key value : List ℕ) where
  unfoldable pub inserted : ℕ → Db → List WriteResult → Option Page → Changed
  inserted page_id db results none = failure db results
  inserted page_id db results (some page) =
      success (store_page page_checksum page_id page db) results

  -- The leaf has room: the record goes to the log before the page changes.
  unfoldable pub insert_here : Db → ℕ → Page → ℕ → List WriteResult → Run Changed
  insert_here db page_id page pos results =
      elim (log_change checksum db txn.txn_id wal_insert page_id (insert_payload key value)
        results) [
          | none ↦ done waiting
          | some (db', rest) ↦
              insert_kv_pair page pos key value 0 >>= λ left. done (inserted page_id db' rest left)
        ]

  -- A pass at a leaf. `again` is the next pass, after the leaf has been split.
  unfoldable pub insert_at_leaf :
      (Db → Run Changed) → Db → ℕ → Page → List WriteResult → Run Changed
  insert_at_leaf again db page_id page results = find_key_position page key >>= λ pos.
      get_kv_pair page pos >>= λ found. key_exists page key found >>= λ exists. elim exists [
        | true ↦ done (failure db results)
        | false ↦ elim (ltb page.free_space (kv_size + length key + length value)) [
          | false ↦ insert_here db page_id page pos results
          | true ↦ btree_split_node page_checksum can_grow btree_max_depth page_id db >>= λ r.
              elim (r.1) [ false ↦ done (failure r.0 results) | true ↦ again r.0 ]
        ]
      ]

  unfoldable pub insert_from : ℕ → Db → List WriteResult → Run Changed
  insert_from zero db results = done (failure db results)
  insert_from (suc attempts) db results = descend_path db.pages key >>= λ path. elim path [
    | none ↦ done (failure db results)
    | some ids ↦ elim (last_id ids) [
      | none ↦ done (failure db results)
      | some page_id ↦ elim (db.pages page_id) [
        | none ↦ done (failure db results)
        | some page ↦
            insert_at_leaf (λ db'. insert_from attempts db' results) db page_id page results
      ]
    ]
  ]

  unfoldable pub db_insert : Db → List WriteResult → Run Changed
  db_insert db results = elim (not (is_active txn.state) || bad_lengths key value) [
    | true ↦ done (failure db results)
    | false ↦ insert_from btree_max_depth db results
  ]
