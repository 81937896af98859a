-- ===== src/Storage/Page.antt =====
-- storage/src/btree.c: the operations on one page, over the bytes of its data area.
pub mod Split
pub mod Safety
pub mod Entries
pub mod Walks
pub mod Reads
pub mod Update
pub mod Keys
pub mod Search
use Prim.Native.Nat.{compare, Ordering}
use codo.Prelude.{
  ℕ, zero, suc, ◌+◌, ◌-◌, ◌*◌, ◌/◌, ◌%◌, Bool, true, false, Option, none, some, List, [], ◌∷◌, ◌++◌,
  ltb, leb, if◌then◌else◌, length, drop, min,
}
use codo.Storage.Memory.{Run, done, fault, ◌>>=◌, load_bytes, store_bytes, memmove}

-- `page_type_t`; `unset` is the 0 of a page that has been cleared.
pub data PageType : Type 0 where
  leaf internal overflow free_page unset : PageType

-- `btree_page_t`: the header's fields that the engine reads or writes, and the data area. An area
-- of the wrong length cannot exist in C; `HasArea` of Page/Safety states the right one.
pub record Page : Type 0 where
  pub page_id : ℕ
  pub page_type : PageType
  pub key_count : ℕ
  pub free_space : ℕ
  pub next_page_id : ℕ
  pub prev_page_id : ℕ
  pub lsn : ℕ
  pub checksum : ℕ
  pub area : List ℕ

-- The fixed part of `kv_pair_t`.
pub record KvHead : Type 0 where
  pub key_length : ℕ
  pub value_length : ℕ
  pub child_page_id : ℕ

-- `sizeof(kv_pair_t)`.
abbrev pub kv_size : ℕ
kv_size = 8

-- PAGE_SIZE less `sizeof(page_header_t)`, which is 72 on a 64-bit target.
abbrev pub btree_page_capacity : ℕ
btree_page_capacity = 4096 - 72

abbrev pub u16_mod : ℕ
u16_mod = 65536

-- The packed little-endian fields.
unfoldable pub decode_head : List ℕ → Option KvHead
decode_head (a ∷ b ∷ c ∷ d ∷ e ∷ f ∷ g ∷ h ∷ rest) = some (record {
  key_length = a + 256 * b;
  value_length = c + 256 * d;
  child_page_id = e + 256 * f + 65536 * g + 16777216 * h;
})
decode_head _ = none

unfoldable pub encode_head : ℕ → ℕ → ℕ → List ℕ
encode_head key_length value_length child =
    key_length % 256
    ∷ key_length / 256 % 256
    ∷ value_length % 256
    ∷ value_length / 256 % 256
    ∷ child % 256
    ∷ child / 256 % 256
    ∷ child / 65536 % 256
    ∷ child / 16777216 % 256
    ∷ []

-- A read of the fixed part at an offset.
unfoldable pub load_head : List ℕ → ℕ → Run KvHead
load_head area off = elim (decode_head (drop off area)) [ none ↦ fault | some kv ↦ done kv ]

abbrev pub pair_size : KvHead → ℕ
pair_size kv = kv_size + kv.key_length + kv.value_length

-- `none` is SIZE_MAX.
unfoldable pub btree_used_bytes : Page → Option ℕ
btree_used_bytes page =
    if ltb btree_page_capacity page.free_space
    then none
    else some (btree_page_capacity - page.free_space)

-- The loop of `entry_offset`, over the entries that are left; the loop of `insert_kv_pair` over the
-- entries below the position is the same. `none` is a corrupt page.
unfoldable pub entry_offset_from : List ℕ → ℕ → ℕ → ℕ → Run (Option ℕ)
entry_offset_from area used zero offset = done (some offset)
entry_offset_from area used (suc n) offset = elim (ltb used (offset + kv_size)) [
  | true ↦ done none
  | false ↦ load_head area offset >>= λ kv. elim (ltb (used - offset) (pair_size kv)) [
    | true ↦ done none
    | false ↦ entry_offset_from area used n (offset + pair_size kv)
  ]
]

unfoldable pub entry_offset : Page → ℕ → ℕ → Run (Option ℕ)
entry_offset page index used = entry_offset_from page.area used index 0

-- The loop of `get_kv_pair`, over the pairs left before the one wanted. The result is the offset
-- that the returned pointer has in the data area; `none` is NULL.
unfoldable pub get_kv_pair_from : List ℕ → ℕ → ℕ → Run (Option ℕ)
get_kv_pair_from area zero offset = elim (ltb btree_page_capacity (offset + kv_size)) [
  | true ↦ done none
  | false ↦ load_head area offset >>= λ kv.
      if ltb btree_page_capacity (offset + pair_size kv) then done none else done (some offset)
]
get_kv_pair_from area (suc n) offset = elim (ltb btree_page_capacity (offset + kv_size)) [
  | true ↦ done none
  | false ↦ load_head area offset >>= λ kv.
      elim (ltb (btree_page_capacity - offset) (pair_size kv)) [
        | true ↦ done none
        | false ↦ get_kv_pair_from area n (offset + pair_size kv)
      ]
]

-- An index is never negative here; the callers pass positions.
unfoldable pub get_kv_pair : Page → ℕ → Run (Option ℕ)
get_kv_pair page index =
    if leb page.key_count index then done none else get_kv_pair_from page.area index 0

-- `memcmp`: the order of the first bytes that differ among the first `n`.
unfoldable pub memcmp : List ℕ → List ℕ → ℕ → Ordering
memcmp (x ∷ xs) (y ∷ ys) (suc n) = elim (compare x y) [
  | Ordering.lt ↦ Ordering.lt
  | Ordering.gt ↦ Ordering.gt
  | Ordering.eq ↦ memcmp xs ys n
]
memcmp _ _ _ = Ordering.eq

-- The sign of the result: negative, zero or positive.
unfoldable pub compare_keys : List ℕ → List ℕ → Ordering
unfolding memcmp
compare_keys key1 key2 = elim (memcmp key1 key2 (min (length key1) (length key2))) [
  | Ordering.lt ↦ Ordering.lt
  | Ordering.gt ↦ Ordering.gt
  | Ordering.eq ↦
      if ltb (length key1) (length key2)
      then Ordering.lt
      else (if ltb (length key2) (length key1) then Ordering.gt else Ordering.eq)
]

-- The key bytes behind a pair's fixed part.
unfoldable pub load_key : List ℕ → ℕ → Run (List ℕ)
load_key area off = load_head area off >>= λ kv. load_bytes area (off + kv_size) kv.key_length

-- The key of the pair that `get_kv_pair` finds, as `find_key_position` reads it.
unfoldable pub key_at : Page → ℕ → Run (Option (List ℕ))
key_at page index = get_kv_pair page index >>= λ found. elim found [
  | none ↦ done none
  | some off ↦ load_key page.area off >>= λ key. done (some key)
]

-- The binary search. `bound` is `right + 1`, so that the empty range needs no negative number.
unfoldable pub find_from : Page → List ℕ → ℕ → ℕ → ℕ → Run ℕ
find_from page key zero left bound = done left
find_from page key (suc fuel) left bound = elim (ltb left bound) [
  | false ↦ done left
  | true ↦ key_at page ((left + (bound - 1)) / 2) >>= λ found. elim found [
    | none ↦ done left
    | some kv_key ↦ elim (compare_keys key kv_key) [
      | Ordering.eq ↦ done ((left + (bound - 1)) / 2)
      | Ordering.lt ↦ find_from page key fuel left ((left + (bound - 1)) / 2)
      | Ordering.gt ↦ find_from page key fuel ((left + (bound - 1)) / 2 + 1) bound
    ]
  ]
]

-- Each round removes at least one entry from the range, so `key_count` rounds are enough.
unfoldable pub find_key_position : Page → List ℕ → Run ℕ
find_key_position page key = find_from page key page.key_count 0 page.key_count

-- The rest of `insert_kv_pair` once the insertion point is found: make room, write, count.
unfoldable pub insert_at : Page → ℕ → List ℕ → List ℕ → ℕ → Run (Option Page)
insert_at page off key value child =
    let size = kv_size + length key + length value in
    memmove page.area (off + size) off (btree_page_capacity - page.free_space - off) >>= λ moved.
    store_bytes moved off (encode_head (length key) (length value) child ++ (key ++ value))
    >>= λ area. done (
        some (record page {
          area = area;
          key_count = (page.key_count + 1) % u16_mod;
          free_space = (page.free_space - size) % u16_mod;
        }))

-- `none` is -1, with the page as it was.
unfoldable pub insert_kv_pair : Page → ℕ → List ℕ → List ℕ → ℕ → Run (Option Page)
insert_kv_pair page position key value child =
    if ltb page.free_space (kv_size + length key + length value)
    then done none
    else (if ltb btree_page_capacity page.free_space
        then done none
        else (entry_offset_from page.area (btree_page_capacity - page.free_space) position 0
            >>= λ found. elim found [
              | none ↦ done none
              | some off ↦ insert_at page off key value child
            ]))

-- The rest of `delete_kv_pair` once the pair is found.
unfoldable pub delete_at : Page → ℕ → KvHead → Run (Option Page)
delete_at page off kv =
    let size = pair_size kv in
    let used = btree_page_capacity - page.free_space in
    if ltb btree_page_capacity page.free_space
    then done none
    else (if ltb used (off + size)
        then done none
        else (memmove page.area off (off + size) (used - (off + size)) >>= λ area. done (
            some (record page {
              area = area;
              key_count = page.key_count - 1;
              free_space = (page.free_space + size) % u16_mod;
            }))))

unfoldable pub delete_kv_pair : Page → ℕ → Run (Option Page)
delete_kv_pair page position =
    if leb page.key_count position
    then done none
    else (get_kv_pair page position >>= λ found. elim found [
      | none ↦ done none
      | some off ↦ load_head page.area off >>= λ kv. delete_at page off kv
    ])
