-- ===== src/Storage/Db/Insert/Safety.antt =====
-- An insertion of storage/src/db.c into pages that may hold anything: it stays inside them.
use codo.Prelude.{
  ℕ, zero, suc, ◌+◌, ◌≤◌, ◌≡◌, ◌∙◌, ap, subst, Bool, ◌||◌, Option, none, some, List, ◌==◌, arith,
  length, Bool-cases, Option-cases, inl, inr, length-replicate,
}
use codo.Storage.Memory.{Ensures, >>=-Ensures, Ensures-mono, store_bytes_in, length-overwrite}
use codo.Storage.Page.{
  Page, kv_size, btree_page_capacity, find_key_position, get_kv_pair, load_head,
}
use codo.Storage.Page.Safety.{
  HasArea, Located, load_head_in, get_kv_pair-Located, find_from_bounded,
}
use codo.Storage.Wal.{little_endian}
use codo.Storage.Db.{root_page_id, is_internal, child_or_next, child_toward}
use codo.Storage.Db.Store.{Db, put_page, allocate_page, deallocate_page, stamped, store_page}
use codo.Storage.Db.Removal.{stamped-Stamped}
use codo.Storage.Db.Grow.{
  descend_path_from, zeros, emptied_root, Pointer, at_entry, not_there, unreadable, find_pointer,
  set_child, grow_root, repoint, root_beside,
}

-- Every page has a data area of the right size.
abbrev pub Sized : (ℕ → Option Page) → Type 0
Sized pages = (id : ℕ) (p : Page) → pages id ≡ some p → HasArea p

pub Sized-put_page :
    (pages : ℕ → Option Page) (id : ℕ) (page : Page)
    → Sized pages
    → HasArea page
    → Sized (put_page id page pages)
Sized-put_page pages id page sized here i p at = elim (Bool-cases (id == i)) [
  | inl eq ↦ let same : page ≡ p = ground (arith, eq, at) in subst HasArea same here
  | inr ne ↦ sized i p (ground (arith, ne, at))
]

pub Sized-store_page :
    (page_checksum : Page → ℕ) (id : ℕ) (page : Page) (db : Db)
    → Sized db.pages
    → HasArea page
    → Sized (store_page page_checksum id page db).pages
unfolding store_page
Sized-store_page page_checksum id page db sized here =
    Sized-put_page db.pages id (stamped page_checksum db page) sized
      (ap length (stamped-Stamped page_checksum db page).same_area ∙ here)

pub allocate_page-pages : (db : Db) → (allocate_page db).0.pages ≡ db.pages
unfolding allocate_page
allocate_page-pages db = ground arith

pub deallocate_page-pages :
    (can_grow : Bool) (id : ℕ) (db : Db) → (deallocate_page can_grow id db).pages ≡ db.pages
unfolding deallocate_page
deallocate_page-pages can_grow id db = ground arith

pub zeros-HasArea : length zeros ≡ btree_page_capacity
zeros-HasArea = length-replicate {A = ℕ} btree_page_capacity 0

pub find_key_position_safe :
    (page : Page) (key : List ℕ) → HasArea page → Ensures (find_key_position page key) (λ _. Unit)
unfolding find_key_position
find_key_position_safe page key size =
    Ensures-mono _ _ (λ _. Unit) (λ _ _. tt)
      (find_from_bounded page key page.key_count 0 page.key_count size (omega arith))

child_toward_safe :
    (page : Page) (key : List ℕ) → HasArea page → Ensures (child_toward page key) (λ _. Unit)
unfolding child_toward child_or_next
child_toward_safe page key size =
    >>=-Ensures (find_key_position page key) _ (λ _. Unit) (λ _. Unit)
      (find_key_position_safe page key size)
      (λ pos _.
        >>=-Ensures (get_kv_pair page pos) (child_or_next page) (Located page.area) (λ _. Unit)
          (get_kv_pair-Located page pos size)
          (elim [
            | none ↦ λ _. tt
            | some off ↦ λ inside. rw (load_head_in page.area off (omega arith)) tt
          ]))

pub descend_path_from_safe :
    (levels : ℕ) (pages : ℕ → Option Page) (key : List ℕ) (id : ℕ)
    → Sized pages
    → Ensures (descend_path_from levels pages key id) (λ _. Unit)
unfolding descend_path_from
descend_path_from_safe zero pages key id sized = tt
descend_path_from_safe (suc levels) pages key id sized = elim (Option-cases (pages id)) [
  | inl gone ↦ rw (gone, descend_path_from) tt
  | inr (page, there) ↦
      rw (there, descend_path_from)
        (elim (Bool-cases (is_internal page.page_type)) [
          | inr leaf ↦ rw leaf tt
          | inl inner ↦ rw inner (
              >>=-Ensures (child_toward page key) _ (λ _. Unit) (λ _. Unit)
                (child_toward_safe page key (sized id page there))
                (λ child _. elim (Bool-cases (child == 0 || child == id)) [
                  | inl bad ↦ rw bad tt
                  | inr fine ↦ rw fine (
                      >>=-Ensures (descend_path_from levels pages key child) _ (λ _. Unit)
                        (λ _. Unit) (descend_path_from_safe levels pages key child sized)
                        (λ _ _. tt))
                ]))
        ])
]

set_child-HasArea :
    (page : Page) (off id : ℕ)
    → HasArea page
    → off + kv_size ≤ btree_page_capacity
    → Ensures (set_child page off id) HasArea
unfolding set_child little_endian
set_child-HasArea page off id size inside =
    rw (store_bytes_in page.area (off + 4) (little_endian 4 id) (omega arith))
      (length-overwrite page.area (off + 4) (little_endian 4 id) (omega arith) ∙ size)

pub find_pointer_safe :
    (parent : Page) (node_id n i : ℕ)
    → HasArea parent
    → Ensures (find_pointer parent node_id n i) (λ _. Unit)
unfolding find_pointer
find_pointer_safe parent node_id zero i size = tt
find_pointer_safe parent node_id (suc n) i size =
    >>=-Ensures (get_kv_pair parent i) _ (Located parent.area) (λ _. Unit)
      (get_kv_pair-Located parent i size)
      (elim [
        | none ↦ λ _. tt
        | some off ↦ λ inside.
            >>=-Ensures (load_head parent.area off) _ (λ _. Unit) (λ _. Unit)
              (rw (load_head_in parent.area off (omega arith)) tt)
              (λ kv _. elim (Bool-cases (kv.child_page_id == node_id)) [
                | inl hit ↦ rw hit tt
                | inr other ↦ rw other (find_pointer_safe parent node_id n (i + 1) size)
              ])
      ])

-- What a step leaves.
abbrev pub StepSized : Db × Bool → Type 0
StepSized r = Sized r.0.pages

module _ (page_checksum : Page → ℕ) where
  pub grow_root-Sized : (db : Db) → Sized db.pages → Sized (grow_root page_checksum db).0.pages
  unfolding grow_root
  grow_root-Sized db sized =
      let (db', left_id) = allocate_page db in
      let sized' : Sized db'.pages = rw (allocate_page-pages db) sized in
      elim (Bool-cases (left_id == 0)) [
        | inl none_left ↦ rw (none_left, grow_root) sized'
        | inr id ↦
            rw (id, grow_root)
              (elim (Option-cases (db'.pages root_page_id)) [
                | inl gone ↦ rw (gone, grow_root) sized'
                | inr (root, there) ↦
                    rw (there, grow_root)
                      (elim (Option-cases (db'.pages left_id)) [
                        | inl gone ↦ rw (gone, grow_root) sized'
                        | inr (left, there') ↦
                            rw (there', grow_root)
                              (Sized-store_page page_checksum root_page_id
                                (emptied_root left_id (root_beside left_id root))
                                (store_page page_checksum left_id
                                  (record root { page_id = left_id }) db')
                                (Sized-store_page page_checksum left_id
                                  (record root { page_id = left_id }) db' sized'
                                  (sized' root_page_id root there))
                                zeros-HasArea)
                      ])
              ])
      ]

  pub repoint-Sized :
      (parent_id right_id : ℕ) (parent : Page) (old : Pointer) (db : Db)
      → Sized db.pages
      → HasArea parent
      → Ensures (repoint page_checksum parent_id right_id parent old db) StepSized
  unfolding repoint
  repoint-Sized parent_id right_id parent (at_entry i) db sized size =
      >>=-Ensures (get_kv_pair parent (i + 1)) _ (Located parent.area) StepSized
        (get_kv_pair-Located parent (i + 1) size)
        (elim [
          | none ↦ λ _. Sized-put_page db.pages parent_id parent sized size
          | some off ↦ λ inside.
              >>=-Ensures (set_child parent off right_id) _ HasArea StepSized
                (set_child-HasArea parent off right_id size (omega arith))
                (λ page here. Sized-store_page page_checksum parent_id page db sized here)
        ])
  repoint-Sized parent_id right_id parent not_there db sized size =
      Sized-store_page page_checksum parent_id (record parent { next_page_id = right_id }) db sized
        size
  repoint-Sized parent_id right_id parent unreadable db sized size =
      Sized-store_page page_checksum parent_id (record parent { next_page_id = right_id }) db sized
        size
