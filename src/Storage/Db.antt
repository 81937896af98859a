-- ===== src/Storage/Db.antt =====
-- storage/src/db.c: the descents from the root, the search and the scans, over the pages that
-- `get_page` of storage/src/pager.c gives; a page that it cannot give is `none`, and is so for the
-- whole call. Pins and page locks are not modelled. A descent that follows a cycle of child
-- pointers does not end in C; here it uses up its fuel.
pub mod Tree
pub mod Descend
pub mod Values
pub mod Search
pub mod Prefix
pub mod Chain
pub mod Scan
pub mod Store
pub mod Delete
pub mod Erase
pub mod Frame
pub mod Links
pub mod Removal
pub mod Grow
pub mod Insert
use Prim.Native.Nat.{Ordering}
use codo.Prelude.{
  ℕ, zero, suc, ◌+◌, ◌-◌, Bool, true, false, ◌&&◌, ◌||◌, not, Option, none, some, List, ltb, ◌==◌,
  if◌then◌else◌, length, min,
}
use codo.Storage.Memory.{Run, done, ◌>>=◌, load_bytes}
use codo.Storage.Page.{
  Page, PageType, kv_size, load_head, load_key, memcmp, compare_keys, get_kv_pair,
  find_key_position,
}
use codo.Storage.Txn.{TxnState, active}

-- The id of the root never changes (storage/src/engine.c).
abbrev pub root_page_id : ℕ
root_page_id = 1

-- MAX_KEY_SIZE
abbrev pub max_key_size : ℕ
max_key_size = 256

abbrev pub is_internal : PageType → Bool
is_internal PageType.internal = true
is_internal _ = false

abbrev pub is_active : TxnState → Bool
is_active active = true
is_active _ = false

-- `kv ? kv->child_page_id : page->header.next_page_id`
unfoldable pub child_or_next : Page → Option ℕ → Run ℕ
child_or_next page none = done page.next_page_id
child_or_next page (some off) = load_head page.area off >>= λ kv. done kv.child_page_id

-- The child of an internal page on the way to a key.
unfoldable pub child_toward : Page → List ℕ → Run ℕ
child_toward page key =
    find_key_position page key >>= λ pos. get_kv_pair page pos >>= λ found. child_or_next page found

-- How a descent ends: at a leaf, with its id; at a page that cannot be had; or, out of fuel, not.
pub data Descent : Type 0 where
  at_leaf : ℕ → Page → Descent
  no_page unfinished : Descent

unfoldable pub descend_from : ℕ → (ℕ → Option Page) → List ℕ → ℕ → Run Descent
descend_from zero pages key page_id = done unfinished
descend_from (suc fuel) pages key page_id = elim (pages page_id) [
  | none ↦ done no_page
  | some page ↦ elim (is_internal page.page_type) [
    | false ↦ done (at_leaf page_id page)
    | true ↦ child_toward page key >>= λ child. descend_from fuel pages key child
  ]
]

unfoldable pub descend_to_leaf : ℕ → (ℕ → Option Page) → List ℕ → Run Descent
descend_to_leaf fuel pages key = descend_from fuel pages key root_page_id

-- What a search answers: the bytes copied out with the value's full length; -1; or nothing yet.
pub data Answer : Type 0 where
  value_is : List ℕ → ℕ → Answer
  missing running : Answer

-- The value behind a pair's key: at most `room` bytes are copied.
unfoldable pub copy_value : List ℕ → ℕ → ℕ → Run Answer
copy_value area off room = load_head area off >>= λ kv.
    load_bytes area (off + kv_size + kv.key_length)
      (if ltb kv.value_length room then kv.value_length else room)
    >>= λ bytes. done (value_is bytes kv.value_length)

unfoldable pub answer_at : Page → List ℕ → ℕ → Option ℕ → Run Answer
answer_at page key room none = done missing
answer_at page key room (some off) = load_key page.area off >>= λ kv_key.
    elim (compare_keys key kv_key) [
      | Ordering.eq ↦ copy_value page.area off room
      | _ ↦ done missing
    ]

-- The search on the leaf that the descent ended at.
unfoldable pub search_leaf : Page → List ℕ → ℕ → Run Answer
search_leaf page key room = find_key_position page key >>= λ pos.
    get_kv_pair page pos >>= λ found. answer_at page key room found

unfoldable pub db_search : ℕ → (ℕ → Option Page) → TxnState → List ℕ → ℕ → Run Answer
db_search fuel pages state key room = elim (is_active state) [
  | false ↦ done missing
  | true ↦ descend_to_leaf fuel pages key >>= λ descent. elim descent [
    | no_page ↦ done missing
    | unfinished ↦ done running
    | at_leaf page_id page ↦ search_leaf page key room
  ]
]

-- The value of the pair at an offset, as the callback of a scan may read it.
unfoldable pub load_value : List ℕ → ℕ → Run (List ℕ)
load_value area off =
    load_head area off >>= λ kv. load_bytes area (off + kv_size + kv.key_length) kv.value_length

abbrev pub is_eq : Ordering → Bool
is_eq Ordering.eq = true
is_eq _ = false

-- The test that a key is past the end of the prefix range.
unfoldable pub past_prefix : List ℕ → List ℕ → Bool
past_prefix prefix key =
    ltb 0 (length prefix)
    && (ltb (length key) (length prefix) || not (is_eq (memcmp key prefix (length prefix))))

-- How a scan ends, with what the callback has made of its context: 0, -1, or not yet.
pub data Scanned (S : Type 0) : Type 0 where
  complete incomplete : S → Scanned S
  scanning : Scanned S

-- `visit` is the callback: the context after a pair, and whether it asks to stop.
module _ {S : Type 0} (visit : S → List ℕ → List ℕ → S × Bool) (prefix : List ℕ) where
  -- The loop over the pairs of a leaf, with the rounds left; true is that the scan is over.
  unfoldable pub scan_entries : ℕ → Page → ℕ → S → Run (S × Bool)
  scan_entries zero page i s = done (s, false)
  scan_entries (suc n) page i s = get_kv_pair page i >>= λ found. elim found [
    | none ↦ done (s, false)
    | some off ↦ load_key page.area off >>= λ key. load_value page.area off >>= λ value.
        elim (past_prefix prefix key) [
          | true ↦ done (s, true)
          | false ↦ elim ((visit s key value).1) [
            | true ↦ done ((visit s key value).0, true)
            | false ↦ scan_entries n page (i + 1) (visit s key value).0
          ]
        ]
  ]

  -- The walk along the chain of leaves.
  unfoldable pub scan_leaves : ℕ → (ℕ → Option Page) → Page → ℕ → S → Run (Scanned S)
  scan_leaves zero pages page start s = done scanning
  scan_leaves (suc fuel) pages page start s =
      scan_entries (page.key_count - start) page start s >>= λ r. elim (r.1) [
        | true ↦ done (complete r.0)
        | false ↦ elim (page.next_page_id == 0) [
          | true ↦ done (complete r.0)
          | false ↦ elim (pages page.next_page_id) [
            | none ↦ done (incomplete r.0)
            | some next ↦ scan_leaves fuel pages next 0 r.0
          ]
        ]
      ]

  -- `depth` and `width` are the fuel of the descent and of the walk. An empty prefix is `db_scan`.
  unfoldable pub db_scan_prefix : ℕ → ℕ → (ℕ → Option Page) → TxnState → S → Run (Scanned S)
  db_scan_prefix depth width pages state s =
      elim (not (is_active state) || ltb max_key_size (length prefix)) [
        | true ↦ done (incomplete s)
        | false ↦ descend_to_leaf depth pages prefix >>= λ descent. elim descent [
          | no_page ↦ done (incomplete s)
          | unfinished ↦ done scanning
          | at_leaf page_id page ↦
              find_key_position page prefix >>= λ start. scan_leaves width pages page start s
        ]
      ]
