-- ===== src/Storage/Db/Removal/OnLeaf.antt =====
-- A deletion of storage/src/db.c on the leaf that the descent ended at.
use Prim.Native.Nat.{Ordering}
use codo.Prelude.{
  ℕ, ◌≤◌, ◌≡◌, ◌∙◌, sym, none, some, List, arith, length, get_elem?, get_elem?_in, get_elem?-lt,
}
use native.Mathlib.Decide.{dec_lt}
use codo.Storage.Memory.{done}
use codo.Storage.Page.{Page, find_key_position, get_kv_pair, delete_kv_pair}
use codo.Storage.Page.Entries.{Entry, Represents}
use codo.Storage.Page.Keys.{lex, compare_keys-lex}
use codo.Storage.Page.Search.{Ascending, IsFirstNotBelow}
use codo.Storage.Page.Reads.{get_kv_pair-offset_of}
use codo.Storage.Wal.{WriteResult, wal_delete}
use codo.Storage.Txn.{Transaction}
use codo.Storage.Db.{max_key_size}
use codo.Storage.Db.Store.{Db, store_page, log_change}
use codo.Storage.Db.Delete.{
  max_value_size, success, failure, waiting, delete_payload, log_delete, deleted, delete_found,
  delete_leaf,
}
use codo.Storage.Db.Values.{load_key-get, load_value-get}
use codo.Storage.Db.Search.{lookup, lookup-first}
use codo.Storage.Db.Removal.{length-delete_payload}

module _ (checksum : List ℕ → ℕ) (page_checksum : Page → ℕ) (db : Db) (txn : Transaction)
    (page_id : ℕ) (page : Page) (es : List Entry) (key : List ℕ) (results : List WriteResult)
    (holds : Represents page es) (sorted : Ascending es) (r : ℕ) (first : IsFirstNotBelow es key r)
    (found : find_key_position page key ≡ done r) where
  -- Without the key the state stays.
  pub delete_leaf-missing :
      lookup key es ≡ none
      → delete_leaf checksum page_checksum db txn page_id page key results
        ≡ done (failure db results)
  unfolding delete_leaf lookup get_kv_pair
  delete_leaf-missing absent = elim (dec_lt r (length es)) [
    | yes lt ↦
        let (e, at) = get_elem?_in es r lt in
        let gone = sym (lookup-first es key r first e at) ∙ absent in
        ground (
          arith,
          found,
          gone,
          get_kv_pair-offset_of page es holds r lt,
          load_key-get page es holds r at,
          compare_keys-lex key e.key,
        )
    | no end ↦ ground (arith, found, holds.counted, first.inside)
  ]

  log_delete-log_change :
      (value : List ℕ)
      → length key ≤ max_key_size
      → length value ≤ max_value_size
      → log_delete checksum page_checksum db txn page_id key value results
        ≡ done (
            log_change checksum db txn.txn_id wal_delete page_id (delete_payload key value) results)
  unfolding log_delete log_change
  log_delete-log_change value short small = ground (arith, length-delete_payload key value)

  -- What the log says of the record decides how the deletion ends.
  pub delete_leaf-logged :
      (e : Entry)
      → get_elem? es r ≡ some e
      → lex key e.key ≡ Ordering.eq
      → length key ≤ max_key_size
      → length e.value ≤ max_value_size
      → (page' : Page) → delete_kv_pair page r ≡ done (some page')
      → delete_leaf checksum page_checksum db txn page_id page key results
        ≡ elim (log_change checksum db txn.txn_id wal_delete page_id
            (delete_payload key e.value)
            results) [
              | none ↦ done waiting
              | some (db', rest) ↦ done (success (store_page page_checksum page_id page' db') rest)
            ]
  unfolding delete_leaf delete_found deleted
  delete_leaf-logged e at same short small page' left =
      let logged = log_delete-log_change e.value short small in
      ground (
        arith,
        found,
        left,
        logged,
        get_kv_pair-offset_of page es holds r (get_elem?-lt es r at),
        load_key-get page es holds r at,
        load_value-get page es holds r at,
        compare_keys-lex key e.key,
      )
