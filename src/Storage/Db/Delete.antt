-- ===== src/Storage/Db/Delete.antt =====
-- `db_delete` of storage/src/db.c.
use Prim.Native.Nat.{Ordering}
use codo.Prelude.{ℕ, ◌+◌, true, false, Option, none, some, List, ◌++◌, ltb, if◌then◌else◌, length}
use codo.Storage.Memory.{Run, done, fault, ◌>>=◌}
use codo.Storage.Page.{Page, load_key, compare_keys, get_kv_pair, find_key_position, delete_kv_pair}
use codo.Storage.Wal.{WriteResult, wal_delete, little_endian}
use codo.Storage.Txn.{Transaction}
use codo.Storage.Db.{
  is_active, at_leaf, no_page, unfinished, descend_to_leaf, load_value, max_key_size,
}
use codo.Storage.Db.Store.{Db, store_page, log_change}

-- MAX_VALUE_SIZE
abbrev pub max_value_size : ℕ
max_value_size = 1024

-- How a change ends: 0 or -1, with the state and the calls of write(2) that are left; or, still in
-- a descent or in write(2), not.
pub data Changed : Type 0 where
  success failure : Db → List WriteResult → Changed
  waiting : Changed

-- The stack buffer `wal_data` of a deletion.
abbrev pub delete_buffer_size : ℕ
delete_buffer_size = max_key_size + max_value_size + 8 + 2

unfoldable pub delete_payload : List ℕ → List ℕ → List ℕ
delete_payload key value =
    little_endian 8 (length key) ++ (little_endian 2 (length value) ++ (key ++ value))

module _ (checksum : List ℕ → ℕ) (page_checksum : Page → ℕ) where
  -- The log record of a deletion: a fault if its bytes are more than `wal_data` holds.
  unfoldable pub log_delete :
      Db
      → Transaction
      → ℕ
      → List ℕ
      → List ℕ
      → List WriteResult
      → Run (Option (Db × List WriteResult))
  log_delete db txn page_id key value results =
      if db.engine.enable_wal
      then (if ltb delete_buffer_size (length (delete_payload key value))
          then fault
          else done (
              log_change checksum db txn.txn_id wal_delete page_id (delete_payload key value)
                results))
      else done (some (db, results))

  -- The page without the pair goes back to the store.
  unfoldable pub deleted : ℕ → Db → List WriteResult → Option Page → Changed
  deleted page_id db results none = failure db results
  deleted page_id db results (some page) =
      success (store_page page_checksum page_id page db) results

  unfoldable pub delete_found :
      Db → Transaction → ℕ → Page → List ℕ → ℕ → ℕ → List WriteResult → Run Changed
  delete_found db txn page_id page key pos off results = load_value page.area off >>= λ value.
      log_delete db txn page_id key value results >>= λ logged. elim logged [
        | none ↦ done waiting
        | some (db', rest) ↦
            delete_kv_pair page pos >>= λ left. done (deleted page_id db' rest left)
      ]

  -- The deletion on the leaf that the descent ended at.
  unfoldable pub delete_leaf : Db → Transaction → ℕ → Page → List ℕ → List WriteResult → Run Changed
  delete_leaf db txn page_id page key results = find_key_position page key >>= λ pos.
      get_kv_pair page pos >>= λ found. elim found [
        | none ↦ done (failure db results)
        | some off ↦ load_key page.area off >>= λ kv_key. elim (compare_keys key kv_key) [
          | Ordering.eq ↦ delete_found db txn page_id page key pos off results
          | _ ↦ done (failure db results)
        ]
      ]

  unfoldable pub db_delete : ℕ → Db → Transaction → List ℕ → List WriteResult → Run Changed
  db_delete fuel db txn key results = elim (is_active txn.state) [
    | false ↦ done (failure db results)
    | true ↦ descend_to_leaf fuel db.pages key >>= λ descent. elim descent [
      | no_page ↦ done (failure db results)
      | unfinished ↦ done waiting
      | at_leaf page_id page ↦ delete_leaf db txn page_id page key results
    ]
  ]
