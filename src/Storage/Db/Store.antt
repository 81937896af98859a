-- ===== src/Storage/Db/Store.antt =====
-- The state that the writers of storage/src/db.c change: the pages, the page allocator of
-- storage/src/pager.c, and the log. `none` in `pages` is a page that `get_page` cannot give.
use codo.Prelude.{
  ℕ, ◌%◌, ◌+◌, ◌-◌, Bool, Option, none, some, List, [], ◌∷◌, ltb, ◌==◌, if◌then◌else◌, length,
}
use codo.Storage.Page.{Page}
use codo.Storage.Wal.{u64_mod, WriteResult, WalRecordType, write_wal_record}
use codo.Storage.Txn.{Engine, ignoring_result}

-- MAX_PAGES
abbrev pub max_pages : ℕ
max_pages = 1000000

-- The last of `free_pages` in C is the first here.
pub record Db : Type 0 where
  pub pages : ℕ → Option Page
  pub free_pages : List ℕ
  pub free_page_capacity : ℕ
  pub next_page_id : ℕ
  pub engine : Engine
  pub enable_checksums : Bool

abbrev pub put_page : ℕ → Page → (ℕ → Option Page) → ℕ → Option Page
put_page id page pages i = if id == i then some page else pages i

unfoldable pub allocate_page : Db → Db × ℕ
allocate_page db = elim (db.free_pages) [
  | id ∷ rest ↦ (record db { free_pages = rest }, id)
  | [] ↦
      if ltb db.next_page_id max_pages
      then (record db { next_page_id = db.next_page_id + 1 }, db.next_page_id)
      else (db, 0)
]

abbrev pub grown_capacity : ℕ → ℕ
grown_capacity capacity = if capacity == 0 then 1024 else capacity + capacity

-- `can_grow` is whether realloc gives a larger list; without room the id is dropped.
unfoldable pub deallocate_page : Bool → ℕ → Db → Db
deallocate_page can_grow id db =
    if ltb (length db.free_pages) db.free_page_capacity
    then record db { free_pages = id ∷ db.free_pages }
    else (if can_grow
        then record db {
          free_pages = id ∷ db.free_pages;
          free_page_capacity = grown_capacity db.free_page_capacity;
        }
        else db)

-- `page_checksum` is the CRC-32 of the page's image with the field `checksum` cleared.
module _ (page_checksum : Page → ℕ) where
  -- `mark_page_dirty`: the page is stored with its new LSN and checksum.
  unfoldable pub stamped : Db → Page → Page
  stamped db page =
      let logged =
        if db.engine.enable_wal
        then record page { lsn = (db.engine.wal.next_lsn + (u64_mod - 1)) % u64_mod }
        else page in
      if db.enable_checksums
      then record logged { checksum = page_checksum (record logged { checksum = 0 }) }
      else logged

  unfoldable pub store_page : ℕ → Page → Db → Db
  unfolding stamped
  store_page id page db = record db { pages = put_page id (stamped db page) db.pages }

-- A record of a change; its result is not looked at. `none`: write(2) has not returned.
unfoldable pub log_change :
    (List ℕ → ℕ)
    → Db
    → ℕ
    → WalRecordType
    → ℕ
    → List ℕ
    → List WriteResult
    → Option (Db × List WriteResult)
log_change checksum db txn_id type page_id payload results =
    if db.engine.enable_wal
    then (elim (ignoring_result
        (write_wal_record checksum db.engine.wal txn_id type page_id payload results)) [
          | none ↦ none
          | some (wal, rest) ↦ some (record db { engine = record (db.engine) { wal = wal } }, rest)
        ])
    else some (db, results)
