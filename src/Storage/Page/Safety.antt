-- ===== src/Storage/Page/Safety.antt =====
-- No operation of storage/src/btree.c reads or writes outside a page, whatever the page holds: the
-- lengths and counts on it are untrusted.
use codo.Prelude.{
  ℕ, zero, suc, ◌+◌, ◌-◌, ◌≤◌, ◌≡◌, refl, Option, none, some, List, ◌∷◌, inl, inr, Bool-cases, ltb,
  arith, length, drop, length-drop, take, ◌++◌, length-append, ltb, leb, ◌/◌,
}
use codo.Storage.Memory.{
  Run, done, >>=-Ensures, ◌>>=◌, Ensures, load_bytes_in, memmove_in, moved, store_bytes_in,
  length-overwrite,
}
use codo.Storage.Page.{
  Page, KvHead, kv_size, btree_page_capacity, pair_size, decode_head, load_head, entry_offset_from,
  get_kv_pair_from, get_kv_pair, load_key, key_at, find_from, insert_at, insert_kv_pair, delete_at,
  delete_kv_pair, encode_head,
}

-- The data area has the size that the C type gives it.
abbrev pub HasArea : Page → Type 0
HasArea page = length page.area ≡ btree_page_capacity

-- The fixed part at an offset that leaves room for one.
pub head_or : Option KvHead → KvHead
head_or none = record { key_length = 0; value_length = 0; child_page_id = 0 }
head_or (some kv) = kv

abbrev pub head_at : List ℕ → ℕ → KvHead
head_at area off = head_or (decode_head (drop off area))

decode_head_in :
    (bytes : List ℕ)
    → kv_size ≤ length bytes
    → decode_head bytes ≡ some (head_or (decode_head bytes))
unfolding decode_head head_or
decode_head_in (a ∷ b ∷ c ∷ d ∷ e ∷ f ∷ g ∷ h ∷ rest) _ = refl
decode_head_in _ h = absurd (omega arith)

pub load_head_in :
    (area : List ℕ) (off : ℕ)
    → off + kv_size ≤ length area
    → load_head area off ≡ done (head_at area off)
unfolding load_head
load_head_in area off h =
    ground (arith, decode_head_in (drop off area) (omega (arith, length-drop off area)))

-- An offset that a walk hands back.
abbrev pub Within : ℕ → Option ℕ → Type 0
Within used none = Unit
Within used (some offset) = offset ≤ used

pub entry_offset_from-Within :
    (area : List ℕ) (used n offset : ℕ)
    → used ≤ length area
    → offset ≤ used
    → Ensures (entry_offset_from area used n offset) (Within used)
unfolding entry_offset_from
entry_offset_from-Within area used zero offset fits h = h
entry_offset_from-Within area used (suc n) offset fits h = ground (
  arith,
  load_head_in area offset,
  entry_offset_from-Within area used n (offset + pair_size (head_at area offset)),
)

-- A pair that `get_kv_pair` hands back lies in the page with its key and its value.
abbrev pub Located : List ℕ → Option ℕ → Type 0
Located area none = Unit
Located area (some off) = off + pair_size (head_at area off) ≤ btree_page_capacity

pub get_kv_pair_from-Located :
    (area : List ℕ) (n offset : ℕ)
    → length area ≡ btree_page_capacity
    → Ensures (get_kv_pair_from area n offset) (Located area)
unfolding get_kv_pair_from
get_kv_pair_from-Located area zero offset size = ground (arith, load_head_in area offset)
get_kv_pair_from-Located area (suc n) offset size = ground (
  arith,
  load_head_in area offset,
  get_kv_pair_from-Located area n (offset + pair_size (head_at area offset)) size,
)

pub get_kv_pair-Located :
    (page : Page) (index : ℕ) → HasArea page → Ensures (get_kv_pair page index) (Located page.area)
unfolding get_kv_pair
get_kv_pair-Located page index size =
    ground (arith, get_kv_pair_from-Located page.area index 0 size)

pub load_key_in :
    (area : List ℕ) (off : ℕ)
    → length area ≡ btree_page_capacity
    → off + pair_size (head_at area off) ≤ btree_page_capacity
    → load_key area off ≡ done (take (head_at area off).key_length (drop (off + kv_size) area))
unfolding load_key
load_key_in area off size h =
    ground (
      arith,
      load_head_in area off,
      load_bytes_in area (off + kv_size) (head_at area off).key_length,
    )

pub key_at_safe : (page : Page) (index : ℕ) → HasArea page → Ensures (key_at page index) (λ _. Unit)
unfolding key_at
key_at_safe page index size =
    >>=-Ensures (get_kv_pair page index) _ (Located page.area) (λ _. Unit)
      (get_kv_pair-Located page index size)
      (λ found h.
        (elim found
            as (λ f.
              Located page.area f
              → Ensures
                  (elim f [
                    | none ↦ done none
                    | some off ↦ load_key page.area off >>= λ key. done (some key)
                  ])
                  (λ _. Unit)) [
                    | none ↦ λ _. tt
                    | some off ↦ λ inside. rw (load_key_in page.area off size inside) tt
                  ])
          h)

pub find_from_bounded :
    (page : Page) (key : List ℕ) (fuel left bound : ℕ)
    → HasArea page
    → left ≤ bound
    → Ensures (find_from page key fuel left bound) (λ r. (left ≤ r) × (r ≤ bound))
unfolding find_from
find_from_bounded page key zero left bound size h = omega arith
find_from_bounded page key (suc fuel) left bound size h =
    let mid = (left + (bound - 1)) / 2 in
    ground (
      arith,
      key_at_safe page mid size,
      find_from_bounded page key fuel left mid size,
      find_from_bounded page key fuel (mid + 1) bound size,
    )

-- The result of an insertion or a deletion that took place is a page again.
abbrev pub KeepsArea : Option Page → Type 0
KeepsArea none = Unit
KeepsArea (some page) = HasArea page

pub length-encode_head : (k v c : ℕ) → length (encode_head k v c) ≡ kv_size
unfolding encode_head
length-encode_head k v c = refl

module _ (page : Page) (size : HasArea page) where
  insert_at-KeepsArea :
      (off : ℕ) (key value : List ℕ) (child : ℕ)
      → kv_size + length key + length value ≤ page.free_space
      → page.free_space ≤ btree_page_capacity
      → off ≤ btree_page_capacity - page.free_space
      → Ensures (insert_at page off key value child) KeepsArea
  unfolding insert_at
  insert_at-KeepsArea off key value child fits sane inside =
      let n = kv_size + length key + length value in
      let cells = encode_head (length key) (length value) child ++ (key ++ value) in
      let rest = btree_page_capacity - page.free_space - off in
      let cells_size : length cells ≡ n = omega (
        arith,
        length-append (encode_head (length key) (length value) child) (key ++ value),
        length-append key value,
        length-encode_head (length key) (length value) child,
      ) in
      ground (
        arith,
        memmove_in page.area (off + n) off rest,
        store_bytes_in (moved page.area (off + n) off rest) off cells,
        length-overwrite (moved page.area (off + n) off rest) off cells,
      )

  delete_at-KeepsArea :
      (off : ℕ) (kv : KvHead)
      → off + pair_size kv ≤ btree_page_capacity
      → Ensures (delete_at page off kv) KeepsArea
  unfolding delete_at
  delete_at-KeepsArea off kv inside =
      let next = off + pair_size kv in
      ground (arith, memmove_in page.area off next (btree_page_capacity - page.free_space - next))

  module _ (position : ℕ) where
    -- An insertion never faults, and leaves a page of the right size.
    pub insert_kv_pair-KeepsArea :
        (key value : List ℕ) (child : ℕ)
        → Ensures (insert_kv_pair page position key value child) KeepsArea
    unfolding insert_kv_pair
    insert_kv_pair-KeepsArea key value child =
        let used = btree_page_capacity - page.free_space in
        let body : Option ℕ → Run (Option Page) = λ found. elim found [
          | none ↦ done none
          | some off ↦ insert_at page off key value child
        ] in
        elim (Bool-cases (ltb page.free_space (kv_size + length key + length value))) [
          | inl full ↦ rw full tt
          | inr fits ↦ rw fits (elim (Bool-cases (ltb btree_page_capacity page.free_space)) [
            | inl corrupt ↦ rw corrupt tt
            | inr sane ↦ rw sane (
                >>=-Ensures (entry_offset_from page.area used position 0) body (Within used)
                  KeepsArea
                  (entry_offset_from-Within page.area used position 0 (ground arith) (ground arith))
                  (elim [
                    | none ↦ λ _. tt
                    | some off ↦
                        λ h. insert_at-KeepsArea off key value child (ground arith) (ground arith) h
                  ]))
          ])
        ]

    pub delete_kv_pair-KeepsArea : Ensures (delete_kv_pair page position) KeepsArea
    unfolding delete_kv_pair
    delete_kv_pair-KeepsArea =
        let body : Option ℕ → Run (Option Page) = λ found. elim found [
          | none ↦ done none
          | some off ↦ load_head page.area off >>= λ kv. delete_at page off kv
        ] in
        elim (Bool-cases (leb page.key_count position)) [
          | inl out ↦ rw out tt
          | inr inside ↦ rw inside (
              >>=-Ensures (get_kv_pair page position) body (Located page.area) KeepsArea
                (get_kv_pair-Located page position size)
                (elim [
                  | none ↦ λ _. tt
                  | some off ↦ λ h.
                      rw (load_head_in page.area off (omega arith))
                        (delete_at-KeepsArea off (head_at page.area off) h)
                ]))
        ]
