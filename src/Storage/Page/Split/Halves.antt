-- ===== src/Storage/Page/Split/Halves.antt =====
-- `btree_split_page` of storage/src/btree.c on a well-formed page: two well-formed halves and the
-- separator between them.
use codo.Prelude.{
  ℕ, suc, ◌+◌, ◌-◌, ◌≤◌, ◌<◌, ◌≡◌, refl, none, some, List, Option, arith, length, take, drop,
  get_elem?, get_elem?_in,
}
use codo.Storage.Memory.{Run, done, fault, Ensures}
use codo.Storage.Page.{Page, PageType, btree_used_bytes}
use codo.Storage.Page.Safety.{HasArea}
use codo.Storage.Page.Entries.{Entry, Represents, offset_of, entry_size}
use codo.Storage.Page.Reads.{sizes}
use codo.Storage.Page.Split.{SplitResult, choose_split_index, right_part, btree_split_page}
use codo.Storage.Page.Split.Choose.{Inner, choose_split_index-Inner}
use codo.Storage.Page.Split.Parts.{
  used_of, entry_offset-offset_of, offset_of_bound, offset_of_split, load_head_at, separator_at-get,
  carved, carve_lem, left-Represents, right-Represents,
}

-- The keys fit the caller's separator buffer.
abbrev pub KeysFit : List Entry → ℕ → Type 0
KeysFit es max_size = (i : ℕ) (e : Entry) → get_elem? es i ≡ some e → length e.key ≤ max_size

-- The outcome at a leaf: two pages of the split page's type, the entries cut in two at `mid`, and
-- the last key on the left as the separator.
pub record LeafSplit (src : Page) (es : List Entry) (dst_id : ℕ) (s : SplitResult) : Type 0 where
  pub mid : ℕ
  pub last : Entry
  pub mid_pos : 0 < mid
  pub mid_in : mid < length es
  pub left_type : s.left.page_type ≡ src.page_type
  pub right_type : s.right.page_type ≡ src.page_type
  pub left_holds : Represents s.left (take mid es)
  pub right_holds : Represents s.right (drop mid es)
  pub last_left : get_elem? es (mid - 1) ≡ some last
  pub separator_is : s.separator ≡ last.key
  pub left_next : s.left.next_page_id ≡ dst_id
  pub right_next : s.right.next_page_id ≡ src.next_page_id

-- The outcome at an internal page: two pages of its type; entry `mid` leaves for the parent, its child becomes the
-- rightmost child on the left.
pub record InternalSplit (src : Page) (es : List Entry) (s : SplitResult) : Type 0 where
  pub mid : ℕ
  pub middle : Entry
  pub mid_pos : 0 < mid
  pub left_type : s.left.page_type ≡ src.page_type
  pub right_type : s.right.page_type ≡ src.page_type
  pub left_holds : Represents s.left (take mid es)
  pub right_holds : Represents s.right (drop (suc mid) es)
  pub middle_at : get_elem? es mid ≡ some middle
  pub separator_is : s.separator ≡ middle.key
  pub left_next : s.left.next_page_id ≡ middle.child
  pub right_next : s.right.next_page_id ≡ src.next_page_id

chosen :
    {n : ℕ} (run : Run (Option ℕ))
    → Ensures run (Inner n)
    → (mid : ℕ) × (run ≡ done (some mid)) × (0 < mid) × (mid < n)
chosen (done (some mid)) h = (mid, refl, h.0, h.1)
chosen (done none) h = absurd h
chosen fault h = absurd h

module _ (src dst : Page) (es : List Entry) (r : Represents src es) (room : HasArea dst) where
  module _ (dst_id max_size : ℕ) (fits : KeysFit es max_size) (two : 2 ≤ length es) where
    module _ (mid : ℕ) (found : choose_split_index src (used_of src es r) ≡ done (some mid))
        (high : mid < length es) (e : Entry) where
      leaf_steps :
          src.page_type ≡ PageType.leaf
          → 0 < mid
          → get_elem? es (mid - 1) ≡ some e
          → btree_split_page src dst dst_id max_size
            ≡ done (some (carved src es r dst dst_id mid mid e.key 0 room))
      unfolding btree_split_page right_part btree_used_bytes
      leaf_steps kind low at = ground (
        arith,
        r.counted,
        sizes src es r,
        separator_at-get src es r (mid - 1) max_size at (fits (mid - 1) e at),
        entry_offset-offset_of src es r mid (omega arith),
        offset_of_split src es r mid,
        carve_lem src es r dst dst_id mid mid e.key 0 room,
      )

      internal_steps :
          src.page_type ≡ PageType.internal
          → get_elem? es mid ≡ some e
          → btree_split_page src dst dst_id max_size
            ≡ done (some (carved src es r dst dst_id mid (suc mid) e.key e.child room))
      unfolding btree_split_page right_part btree_used_bytes
      internal_steps kind at =
          let next : offset_of es mid + entry_size e ≡ offset_of es (suc mid) =
            omega (arith, offset_of_bound src es r mid at, offset_of_split src es r (suc mid)) in
          let count : src.key_count - mid - 1 ≡ length es - suc mid = omega (arith, r.counted) in
          ground (
            arith,
            r.counted,
            sizes src es r,
            separator_at-get src es r mid max_size at (fits mid e at),
            entry_offset-offset_of src es r mid (omega arith),
            offset_of_split src es r mid,
            offset_of_bound src es r mid at,
            load_head_at src es r mid at,
            carve_lem src es r dst dst_id mid (suc mid) e.key e.child room,
          )

    -- A well-formed leaf with two entries or more splits into two well-formed leaves, of its page type,
    -- that hold its entries in order, none of them empty; the separator is the highest key on the left, and the
    -- right half takes the place of the page in the sibling chain, behind the left one.
    pub split_leaf :
        src.page_type ≡ PageType.leaf
        → (s : SplitResult) × (btree_split_page src dst dst_id max_size ≡ done (some s))
          × LeafSplit src es dst_id s
    split_leaf kind =
        let (mid, found, low, high) =
          chosen (choose_split_index src (used_of src es r))
            (choose_split_index-Inner src es r two) in
        let (last, at_last) = get_elem?_in es (mid - 1) (omega arith) in
        (
          carved src es r dst dst_id mid mid last.key 0 room,
          leaf_steps mid found high last kind low at_last,
          record {
            mid = mid;
            last = last;
            mid_pos = low;
            mid_in = high;
            left_type = refl;
            right_type = refl;
            left_holds = left-Represents src es r dst dst_id mid mid last.key 0 room (omega arith);
            right_holds = right-Represents src es r dst dst_id mid mid last.key 0 room;
            last_left = at_last;
            separator_is = refl;
            left_next = rw kind;
            right_next = refl;
          },
        )

    -- A well-formed internal page with two entries or more gives an inner entry up to the parent:
    -- the entries before it stay, with its child as the new rightmost child, and those behind it
    -- move right with the old rightmost child.
    pub split_internal :
        src.page_type ≡ PageType.internal
        → (s : SplitResult) × (btree_split_page src dst dst_id max_size ≡ done (some s))
          × InternalSplit src es s
    split_internal kind =
        let (mid, found, low, high) =
          chosen (choose_split_index src (used_of src es r))
            (choose_split_index-Inner src es r two) in
        let (e, at) = get_elem?_in es mid high in
        (
          carved src es r dst dst_id mid (suc mid) e.key e.child room,
          internal_steps mid found high e kind at,
          record {
            mid = mid;
            middle = e;
            mid_pos = low;
            left_type = refl;
            right_type = refl;
            left_holds =
                left-Represents src es r dst dst_id mid (suc mid) e.key e.child room (omega arith);
            right_holds = right-Represents src es r dst dst_id mid (suc mid) e.key e.child room;
            middle_at = at;
            separator_is = refl;
            left_next = rw kind;
            right_next = refl;
          },
        )
