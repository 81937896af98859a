-- ===== src/Storage/Page/Split.antt =====
-- `choose_split_index` and `btree_split_page` of storage/src/btree.c.
pub mod Choose
pub mod Parts
pub mod Halves
pub mod Bounds
use codo.Prelude.{
  ℕ, zero, suc, ◌+◌, ◌-◌, ◌/◌, ◌%◌, Bool, true, false, ◌&&◌, ◌||◌, Option, none, some, List, ltb,
  leb, if◌then◌else◌,
}
use codo.Storage.Memory.{Run, done, ◌>>=◌, load_bytes, store_bytes}
use codo.Storage.Page.{
  Page, PageType, kv_size, btree_page_capacity, u16_mod, pair_size, load_head, btree_used_bytes,
  entry_offset,
}

abbrev pub is_leaf : PageType → Bool
is_leaf PageType.leaf = true
is_leaf _ = false

-- The loop over the entries that are left, at entry `i` and its offset; `none` is -1.
unfoldable pub choose_split_from : List ℕ → ℕ → ℕ → ℕ → ℕ → ℕ → Run (Option ℕ)
choose_split_from area used key_count zero i offset =
    done (if ltb 1 key_count then some (key_count - 1) else none)
choose_split_from area used key_count (suc n) i offset = elim (leb (used / 2) offset && ltb 0 i) [
  | true ↦ done (some i)
  | false ↦ elim (ltb used (offset + kv_size)) [
    | true ↦ done none
    | false ↦ load_head area offset >>= λ kv. elim (ltb (used - offset) (pair_size kv)) [
      | true ↦ done none
      | false ↦ choose_split_from area used key_count n (i + 1) (offset + pair_size kv)
    ]
  ]
]

unfoldable pub choose_split_index : Page → ℕ → Run (Option ℕ)
choose_split_index page used = choose_split_from page.area used page.key_count page.key_count 0 0

-- The key of the entry at `index`, if it lies in the used bytes and fits `max_size` bytes.
unfoldable pub separator_at : Page → ℕ → ℕ → ℕ → Run (Option (List ℕ))
separator_at src index used max_size = entry_offset src index used >>= λ found. elim found [
  | none ↦ done none
  | some off ↦ elim (ltb used (off + kv_size)) [
    | true ↦ done none
    | false ↦ load_head src.area off >>= λ kv.
        if ltb (used - off) (kv_size + kv.key_length) || ltb max_size kv.key_length
        then done none
        else (load_bytes src.area (off + kv_size) kv.key_length >>= λ key. done (some key))
  ]
]

-- What moves right: the offset of its first byte, its entries, and the child that entry `mid` of
-- an internal page hands to the left half.
pub record RightPart : Type 0 where
  pub right_offset : ℕ
  pub right_count : ℕ
  pub promoted_child : ℕ

unfoldable pub right_part : Page → ℕ → ℕ → ℕ → Run (Option RightPart)
right_part src mid used split_offset = elim (is_leaf src.page_type) [
  | true ↦ done (
      some (record {
        right_offset = split_offset;
        right_count = src.key_count - mid;
        promoted_child = 0;
      }))
  | false ↦ load_head src.area split_offset >>= λ kv.
      if ltb (used - split_offset) (pair_size kv)
      then done none
      else done (
          some (record {
            right_offset = split_offset + pair_size kv;
            right_count = src.key_count - mid - 1;
            promoted_child = kv.child_page_id;
          }))
]

pub record SplitResult : Type 0 where
  pub left : Page
  pub right : Page
  pub separator : List ℕ

-- The last part of `btree_split_page`, where both pages are written.
unfoldable pub carve : Page → Page → ℕ → ℕ → ℕ → ℕ → List ℕ → RightPart → Run (Option SplitResult)
carve src dst dst_page_id used mid split_offset separator part =
    let right_bytes = used - part.right_offset in
    if ltb used part.right_offset || ltb btree_page_capacity right_bytes
    then done none
    else (load_bytes src.area part.right_offset right_bytes >>= λ bytes.
        store_bytes dst.area 0 bytes >>= λ area. done (
          some (record {
            left = record src {
              key_count = mid % u16_mod;
              free_space = (btree_page_capacity - split_offset) % u16_mod;
              next_page_id = if is_leaf src.page_type then dst_page_id else part.promoted_child;
            };
            right = record dst {
              page_id = dst_page_id;
              page_type = src.page_type;
              key_count = part.right_count % u16_mod;
              free_space = (btree_page_capacity - right_bytes) % u16_mod;
              next_page_id = src.next_page_id;
              area = area;
            };
            separator = separator;
          })))

-- Entries 0..mid-1 stay, `none` is -1 with both pages as they were.
unfoldable pub btree_split_page : Page → Page → ℕ → ℕ → Run (Option SplitResult)
btree_split_page src dst dst_page_id sep_out_size = elim (btree_used_bytes src) [
  | none ↦ done none
  | some used ↦
      if ltb src.key_count (if is_leaf src.page_type then 2 else 1)
      then done none
      else (choose_split_index src used >>= λ chosen. elim chosen [
        | none ↦ done none
        | some mid ↦
            if leb src.key_count mid
            then done none
            else (separator_at src (if is_leaf src.page_type then mid - 1 else mid) used
                  sep_out_size
                >>= λ sep. elim sep [
                  | none ↦ done none
                  | some separator ↦ entry_offset src mid used >>= λ found. elim found [
                    | none ↦ done none
                    | some split_offset ↦
                        if ltb used split_offset
                        then done none
                        else (right_part src mid used split_offset >>= λ part. elim part [
                          | none ↦ done none
                          | some p ↦ carve src dst dst_page_id used mid split_offset separator p
                        ])
                  ]
                ])
      ])
]
