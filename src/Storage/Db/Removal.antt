-- ===== src/Storage/Db/Removal.antt =====
-- What a deletion of storage/src/db.c does around the page: the log record, and the page's stamp.
pub mod OnLeaf
pub mod InTree
use Prim.Native.Nat.{Ordering}
use codo.Prelude.{
  ℕ, zero, suc, ◌+◌, ◌≤◌, ◌<◌, ◌≡◌, ◌≢◌, refl, ◌∙◌, ap, ap₂, sym, subst, Bool, true, false, Option,
  none, some, List, [], ◌∷◌, ◌++◌, arith, map, length, take, drop, get_elem?, get_elem?_in,
  length-append, append_nil, Bool-cases, Option-cases, inl, inr, ◌⊎◌, leb, ltb, if◌then◌else◌,
}
use native.Mathlib.Decide.{dec_lt}
use codo.Storage.Memory.{Run, done, Ensures}
use codo.Storage.Page.{
  Page, PageType, find_key_position, get_kv_pair, load_key, compare_keys, delete_kv_pair,
}
use codo.Storage.Page.Entries.{Entry, Represents, offset_of}
use codo.Storage.Page.Keys.{lex, compare_keys-lex, Ordering-cases}
use codo.Storage.Page.Search.{Ascending, IsFirstNotBelow, find_key_position-IsFirstNotBelow}
use codo.Storage.Page.Reads.{get_kv_pair-offset_of}
use codo.Storage.Page.Update.{delete_kv_pair-get}
use codo.Storage.Wal.{WriteResult, WalRecordType, wal_delete, little_endian}
use codo.Storage.Txn.{Transaction, active}
use codo.Storage.Db.{root_page_id, max_key_size, descend_from, descend_to_leaf, at_leaf}
use codo.Storage.Db.Store.{Db, put_page, stamped, store_page, log_change}
use codo.Storage.Db.Delete.{
  max_value_size, delete_buffer_size, Changed, success, failure, waiting, delete_payload,
  log_delete, deleted, delete_found, delete_leaf, db_delete,
}
use codo.Storage.Db.Tree.{Leaf, contents, contents-append, All, Tree, AllBelow, AllAbove}
use codo.Storage.Db.Descend.{Reached, descend_from-Reached, result_of}
use codo.Storage.Db.Values.{load_key-get, load_value-get, take_all}
use codo.Storage.Db.Search.{
  lookup, lookup-first, lookup-below, lookup-above, lookup-append_above, below_first, above_first,
  not_above,
}
use codo.Storage.Db.Chain.{Linked, Tree-AllLeaves}
use codo.Storage.Db.Erase.{
  erase_at, without, All-erase_at, Ascending-erase_at, without-append, without-below, without-above,
  without-erase_at,
}
use codo.Storage.Db.Frame.{changed, changed-Tree}
use codo.Storage.Db.Links.{contents-changed, changed-Linked}

-- A store of a page changes its LSN and checksum only.
pub record Stamped (p q : Page) : Type 0 where
  pub same_type : q.page_type ≡ p.page_type
  pub same_count : q.key_count ≡ p.key_count
  pub same_free : q.free_space ≡ p.free_space
  pub same_next : q.next_page_id ≡ p.next_page_id
  pub same_area : q.area ≡ p.area

Stamped-self : (p : Page) → Stamped p p
Stamped-self p = record {
  same_type = refl;
  same_count = refl;
  same_free = refl;
  same_next = refl;
  same_area = refl;
}

Stamped-fields :
    (p : Page) (lsn checksum : ℕ) → Stamped p (record p { lsn = lsn; checksum = checksum })
Stamped-fields p lsn checksum = record {
  same_type = refl;
  same_count = refl;
  same_free = refl;
  same_next = refl;
  same_area = refl;
}

pub stamped-Stamped :
    (page_checksum : Page → ℕ) (db : Db) (p : Page) → Stamped p (stamped page_checksum db p)
unfolding stamped
stamped-Stamped page_checksum db p = elim (Bool-cases db.engine.enable_wal) [
  | inl a ↦ elim (Bool-cases db.enable_checksums) [
    | inl b ↦ rw (a, b) (Stamped-fields p _ _)
    | inr b ↦ rw (a, b) (Stamped-fields p _ _)
  ]
  | inr a ↦ elim (Bool-cases db.enable_checksums) [
    | inl b ↦ rw (a, b) (Stamped-fields p _ _)
    | inr b ↦ rw (a, b) (Stamped-self p)
  ]
]

pub Stamped-Represents :
    (p q : Page) (es : List Entry) → Stamped p q → Represents p es → Represents q es
Stamped-Represents p q es s r = record {
  rest = r.rest;
  packed = s.same_area ∙ r.packed;
  filled = ap length s.same_area ∙ r.filled;
  counted = s.same_count ∙ r.counted;
  free = s.same_free ∙ r.free;
  fit = r.fit;
}

pub log_change-pages :
    (checksum : List ℕ → ℕ) (db : Db) (txn_id : ℕ) (type : WalRecordType) (page_id : ℕ)
    (payload : List ℕ) (results : List WriteResult) (db' : Db) (rest : List WriteResult)
    → log_change checksum db txn_id type page_id payload results ≡ some (db', rest)
    → db'.pages ≡ db.pages
unfolding log_change
log_change-pages checksum db txn_id type page_id payload results db' rest h = ground arith

pub length-delete_payload :
    (key value : List ℕ) → length (delete_payload key value) ≡ 10 + (length key + length value)
unfolding delete_payload little_endian
length-delete_payload key value = omega (arith, length-append key value)
