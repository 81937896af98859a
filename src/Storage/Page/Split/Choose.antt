-- ===== src/Storage/Page/Split/Choose.antt =====
-- The index at which `choose_split_index` of storage/src/btree.c splits a well-formed page.
use codo.Prelude.{
  ℕ, zero, suc, ◌+◌, ◌-◌, ◌≤◌, ◌<◌, ◌≡◌, refl, ◌∙◌, ap, sym, Option, none, some, List, [], ◌∷◌,
  ◌++◌, arith, length, length-append,
}
use mathlib.Core.List.{append_assoc}
use codo.Storage.Memory.{Ensures}
use codo.Storage.Page.{Page, btree_page_capacity}
use codo.Storage.Page.Entries.{
  Entry, AllFit, Represents, entry_size, encode_entry, encode_all, length-encode_entry,
  load_head-entry,
}
use codo.Storage.Page.Reads.{sizes}
use codo.Storage.Page.Split.{choose_split_from, choose_split_index}

-- An index that leaves an entry on each side.
abbrev pub Inner : ℕ → Option ℕ → Type 0
Inner n none = ⊥
Inner n (some mid) = (0 < mid) × (mid < n)

choose_split_from-Inner :
    (n : ℕ) (es : List Entry) (pre rest area : List ℕ) (used key_count i offset : ℕ)
    → AllFit es
    → area ≡ pre ++ (encode_all es ++ rest)
    → offset ≡ length pre
    → used ≡ offset + length (encode_all es)
    → n ≡ length es
    → key_count ≡ i + n
    → 2 ≤ key_count
    → Ensures (choose_split_from area used key_count n i offset) (Inner key_count)
unfolding choose_split_from encode_all
choose_split_from-Inner zero es pre rest area used key_count i offset fit packed at end count total
      two =
    ground arith
choose_split_from-Inner (suc n) [] pre rest area used key_count i offset fit packed at end count
      total two =
    absurd (omega arith)
choose_split_from-Inner (suc n) (e ∷ es) pre rest area used key_count i offset fit packed at end
      count total two =
    let unpacked : area ≡ pre ++ (encode_entry e ++ (encode_all es ++ rest)) =
      packed ∙ ap (◌++◌ pre) (append_assoc (encode_entry e) (encode_all es) rest) in
    let behind : area ≡ (pre ++ encode_entry e) ++ (encode_all es ++ rest) =
      unpacked ∙ sym (append_assoc pre (encode_entry e) (encode_all es ++ rest)) in
    ground (
      arith,
      load_head-entry pre (encode_all es ++ rest) area e offset fit.0 unpacked at,
      length-encode_entry e,
      length-append pre (encode_entry e),
      length-append (encode_entry e) (encode_all es),
      choose_split_from-Inner n es (pre ++ encode_entry e) rest area used key_count (i + 1)
          (offset + entry_size e) fit.1 behind,
    )

-- With two entries or more there is an index with an entry on each side, and it is found.
pub choose_split_index-Inner :
    (page : Page) (es : List Entry)
    → Represents page es
    → 2 ≤ length es
    → Ensures (choose_split_index page (btree_page_capacity - page.free_space)) (Inner (length es))
unfolding choose_split_index
choose_split_index-Inner page es r two = rw (← r.counted) (
    choose_split_from-Inner page.key_count es [] r.rest page.area
      (btree_page_capacity - page.free_space) page.key_count 0 0 r.fit r.packed refl
      (omega (arith, sizes page es r)) r.counted (omega arith) (omega (arith, r.counted)))
