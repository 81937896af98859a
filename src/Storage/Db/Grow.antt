-- ===== src/Storage/Db/Grow.antt =====
-- How the tree of storage/src/db.c grows: `descend_path`, `grow_root`, `insert_separator` and
-- `btree_split_node`. The result of a step is the state, and whether it returns 0.
--
-- On a corrupt tree the page that `allocate_page` gives may be the node itself. `get_page` then
-- takes the write lock that its thread holds already: pthread_rwlock_wrlock gives EDEADLK there,
-- which the code ignores, so that it goes on with one page under two names.
use codo.Prelude.{
  ℕ, zero, suc, ◌+◌, ◌%◌, Bool, true, false, ◌||◌, Option, none, some, List, [], ◌∷◌, ◌==◌,
  if◌then◌else◌, replicate,
}
use codo.Storage.Memory.{Run, done, ◌>>=◌, store_bytes}
use codo.Storage.Page.{
  Page, PageType, btree_page_capacity, u16_mod, load_head, get_kv_pair, insert_kv_pair,
}
use codo.Storage.Page.Split.{SplitResult, btree_split_page}
use codo.Storage.Wal.{little_endian}
use codo.Storage.Db.{root_page_id, max_key_size, is_internal, child_toward}
use codo.Storage.Db.Store.{Db, put_page, allocate_page, deallocate_page, store_page}

-- BTREE_MAX_DEPTH
abbrev pub btree_max_depth : ℕ
btree_max_depth = 32

abbrev pub path_with : ℕ → Option (List ℕ) → Option (List ℕ)
path_with id none = none
path_with id (some path) = some (id ∷ path)

-- The ids from a page down to the leaf, with the levels left; `none` is -1.
unfoldable pub descend_path_from : ℕ → (ℕ → Option Page) → List ℕ → ℕ → Run (Option (List ℕ))
descend_path_from zero pages key page_id = done none
descend_path_from (suc levels) pages key page_id = elim (pages page_id) [
  | none ↦ done none
  | some page ↦ elim (is_internal page.page_type) [
    | false ↦ done (some (page_id ∷ []))
    | true ↦ child_toward page key >>= λ child. elim (child == 0 || child == page_id) [
      | true ↦ done none
      | false ↦ descend_path_from levels pages key child >>= λ path. done (path_with page_id path)
    ]
  ]
]

unfoldable pub descend_path : (ℕ → Option Page) → List ℕ → Run (Option (List ℕ))
descend_path pages key = descend_path_from btree_max_depth pages key root_page_id

abbrev pub zeros : List ℕ
zeros = replicate btree_page_capacity 0

-- The root after its contents have moved to page `left_id`.
abbrev pub emptied_root : ℕ → Page → Page
emptied_root left_id root = record root {
  area = zeros;
  page_type = PageType.internal;
  key_count = 0;
  free_space = btree_page_capacity % u16_mod;
  next_page_id = left_id;
  prev_page_id = 0;
}

-- A page cleared for the right half of a split.
abbrev pub blank_page : Page
blank_page = record {
  page_id = 0;
  page_type = PageType.unset;
  key_count = 0;
  free_space = btree_page_capacity % u16_mod;
  next_page_id = 0;
  prev_page_id = 0;
  lsn = 0;
  checksum = 0;
  area = zeros;
}

-- The root when its copy on page `left_id` has its new id: where the two are one page, so has the
-- root.
abbrev pub root_beside : ℕ → Page → Page
root_beside left_id root =
    if left_id == root_page_id then record root { page_id = left_id } else root

-- The node when the page for the right half has been cleared: where the two are one page, the node
-- is cleared with it.
abbrev pub node_beside : ℕ → ℕ → Page → Page
node_beside node_id right_id node = if node_id == right_id then blank_page else node

-- The page before `node_id` on a path: `none` if it is not there, or first.
unfoldable pub parent_on : ℕ → List ℕ → Option ℕ
parent_on node_id [] = none
parent_on node_id (p ∷ []) = none
parent_on node_id (p ∷ c ∷ rest) = elim (p == node_id) [
  | true ↦ none
  | false ↦ elim (c == node_id) [ true ↦ some p | false ↦ parent_on node_id (c ∷ rest) ]
]

-- Where a parent points at a node: an entry, nowhere among them, or a pair that cannot be read.
pub data Pointer : Type 0 where
  at_entry : ℕ → Pointer
  not_there unreadable : Pointer

-- The search for the entry, with the entries left.
unfoldable pub find_pointer : Page → ℕ → ℕ → ℕ → Run Pointer
find_pointer parent node_id zero i = done not_there
find_pointer parent node_id (suc n) i = get_kv_pair parent i >>= λ found. elim found [
  | none ↦ done unreadable
  | some off ↦ load_head parent.area off >>= λ kv. elim (kv.child_page_id == node_id) [
    | true ↦ done (at_entry i)
    | false ↦ find_pointer parent node_id n (i + 1)
  ]
]

-- Where the separator goes.
unfoldable pub insert_position : Page → ℕ → Pointer → Option ℕ
insert_position parent node_id (at_entry i) = some i
insert_position parent node_id not_there =
    if parent.next_page_id == node_id then some parent.key_count else none
insert_position parent node_id unreadable = none

-- `kv->child_page_id = id`, for the pair at an offset.
unfoldable pub set_child : Page → ℕ → ℕ → Run Page
set_child page off id = store_bytes page.area (off + 4) (little_endian 4 id) >>= λ area.
    done (record page { area = area })

module _ (page_checksum : Page → ℕ) where
  -- `moved_id` is `none` where `grow_root` returns -1.
  unfoldable pub grow_root : Db → Db × Option ℕ
  grow_root db =
      let (db', left_id) = allocate_page db in
      elim (left_id == 0) [
        | true ↦ (db', none)
        | false ↦ elim (db'.pages root_page_id) [
          | none ↦ (db', none)
          | some root ↦ elim (db'.pages left_id) [
            | none ↦ (db', none)
            | some left ↦ (
              store_page page_checksum root_page_id
                  (emptied_root left_id (root_beside left_id root))
                  (store_page page_checksum left_id (record root { page_id = left_id }) db'),
              some left_id,
            )
          ]
        ]
      ]

  -- With the separator in the parent, the pointer behind it goes to the right half.
  unfoldable pub repoint : ℕ → ℕ → Page → Pointer → Db → Run (Db × Bool)
  repoint parent_id right_id parent (at_entry i) db = get_kv_pair parent (i + 1) >>= λ found.
      elim found [
        | none ↦ done (record db { pages = put_page parent_id parent db.pages }, false)
        | some off ↦ set_child parent off right_id >>= λ page.
            done (store_page page_checksum parent_id page db, true)
      ]
  repoint parent_id right_id parent _ db =
      done (store_page page_checksum parent_id (record parent { next_page_id = right_id }) db, true)

-- The first part of `insert_separator`: the parent is full, or it is done with a result.
pub data Placed : Type 0 where
  ended : Db → Bool → Placed
  full : ℕ → Placed

module _ (page_checksum : Page → ℕ) (can_grow : Bool) where
  unfoldable pub place_at : ℕ → List ℕ → ℕ → ℕ → Page → Pointer → Db → Option ℕ → Run Placed
  place_at node_id sep right_id parent_id parent old db none = done (ended db false)
  place_at node_id sep right_id parent_id parent old db (some position) =
      insert_kv_pair parent position sep [] node_id >>= λ inserted. elim inserted [
        | none ↦ done (full parent_id)
        | some page ↦
            repoint page_checksum parent_id right_id page old db >>= λ r. done (ended r.0 r.1)
      ]

  unfoldable pub place_separator : ℕ → List ℕ → ℕ → Db → Run Placed
  place_separator node_id sep right_id db = descend_path db.pages sep >>= λ path. elim path [
    | none ↦ done (ended db false)
    | some ids ↦ elim (parent_on node_id ids) [
      | none ↦ done (ended db false)
      | some parent_id ↦ elim (db.pages parent_id) [
        | none ↦ done (ended db false)
        | some parent ↦ find_pointer parent node_id parent.key_count 0 >>= λ old.
            place_at node_id sep right_id parent_id parent old db
              (insert_position parent node_id old)
      ]
    ]
  ]

  -- The page that `btree_split_node` halves: the root hands its contents to a child first.
  unfoldable pub split_target : ℕ → Db → Db × Option ℕ
  split_target node_id db =
      if node_id == root_page_id then grow_root page_checksum db else (db, some node_id)

  -- What a split leaves, with the separator if there was one.
  unfoldable pub halved : ℕ → ℕ → Db → Option SplitResult → Db × Option (List ℕ × ℕ)
  halved node_id right_id db none = (
    deallocate_page can_grow right_id (record db { pages = put_page right_id blank_page db.pages }),
    none,
  )
  halved node_id right_id db (some split) = (
    store_page page_checksum right_id split.right (store_page page_checksum node_id split.left db),
    some (split.separator, right_id),
  )

  -- The split of a node into itself and a new page.
  unfoldable pub halve : ℕ → Db → Run (Db × Option (List ℕ × ℕ))
  halve node_id db =
      let (db', right_id) = allocate_page db in
      elim (right_id == 0) [
        | true ↦ done (db', none)
        | false ↦ elim (db'.pages node_id) [
          | none ↦ done (db', none)
          | some node ↦ elim (db'.pages right_id) [
            | none ↦ done (db', none)
            | some right ↦
                btree_split_page (node_beside node_id right_id node) blank_page right_id
                  max_key_size
                >>= λ split. done (halved node_id right_id db' split)
          ]
        ]
      ]

  -- The two call each other with the depth that is left.
  unfoldable mutual
    pub insert_separator : ℕ → ℕ → List ℕ → ℕ → Db → Run (Db × Bool)
    insert_separator zero node_id sep right_id db = done (db, false)
    insert_separator (suc depth) node_id sep right_id db =
        place_separator node_id sep right_id db >>= λ placed. elim placed [
          | ended db' ok ↦ done (db', ok)
          | full parent_id ↦ btree_split_node depth parent_id db >>= λ r. elim (r.1) [
            | false ↦ done (r.0, false)
            | true ↦ insert_separator depth node_id sep right_id r.0
          ]
        ]

    pub btree_split_node : ℕ → ℕ → Db → Run (Db × Bool)
    btree_split_node zero node_id db = done (db, false)
    btree_split_node (suc depth) node_id db =
        let (db', target) = split_target node_id db in
        elim target [
          | none ↦ done (db', false)
          | some id ↦ halve id db' >>= λ r. elim (r.1) [
            | none ↦ done (r.0, false)
            | some (sep, right_id) ↦ insert_separator depth id sep right_id r.0
          ]
        ]
