-- ===== src/Tests/Pages.antt =====
-- storage/src/btree.c at a page with three entries.
use codo.Prelude.{
  ℕ, zero, suc, ◌≤◌, ◌<◌, ◌≡◌, refl, ◌⊎◌, none, some, List, [], ◌∷◌, ◌++◌, arith, length, take,
  drop, replicate, length-append, length-replicate,
}
use codo.Storage.Memory.{done, Ensures}
use codo.Storage.Page.{
  Page, PageType, btree_page_capacity, encode_head, compare_keys, find_key_position, insert_kv_pair,
  delete_kv_pair,
}
use codo.Storage.Page.Entries.{Entry, Fits, Represents, encode_all, encode_entry, entry_size}
use codo.Storage.Page.Keys.{lex, compare_keys-lex}
use codo.Storage.Page.Search.{Ascending, IsFirstNotBelow, find_key_position-IsFirstNotBelow}
use codo.Storage.Page.Update.{insert_kv_pair-Represents, delete_kv_pair-Represents}
use codo.Storage.Page.Split.{SplitResult, btree_split_page}
use codo.Storage.Page.Split.Halves.{KeysFit, LeafSplit, InternalSplit, split_leaf, split_internal}
use codo.Storage.Page.Split.Bounds.{BothPages, btree_split_page-BothPages, split_single}

abbrev entry : ℕ → ℕ → Entry
entry key child = record { key = key ∷ []; value = 7 ∷ []; child = child }

abbrev three : List Entry
three = entry 97 3 ∷ entry 99 4 ∷ entry 101 5 ∷ []

abbrev blank : ℕ → List ℕ
blank n = replicate n 0

abbrev page_of : PageType → List Entry → ℕ → Page
page_of page_type es room = record {
  page_id = 1;
  page_type = page_type;
  key_count = length es;
  free_space = room;
  next_page_id = 6;
  prev_page_id = 0;
  lsn = 0;
  checksum = 0;
  area = encode_all es ++ blank room;
}

abbrev leaf_page : Page
leaf_page = page_of PageType.leaf three 3994

abbrev internal_page : Page
internal_page = page_of PageType.internal three 3994

abbrev empty_page : Page
empty_page = page_of PageType.free_page [] 4024

leaf_length : length (encode_all three ++ blank 3994) ≡ btree_page_capacity
unfolding encode_all encode_entry encode_head
leaf_length =
    omega (arith, length-append (encode_all three) (blank 3994), length-replicate {A = ℕ} 3994 0)

empty_length : length (encode_all [] ++ blank 4024) ≡ btree_page_capacity
unfolding encode_all
empty_length = length-replicate {A = ℕ} 4024 0

fits : (key child : ℕ) → child < 4294967296 → Fits (entry key child)
fits key child small = record {
  key_fits = omega arith;
  value_fits = omega arith;
  child_fits = small;
}

three_of : (page_type : PageType) → Represents (page_of page_type three 3994) three
three_of page_type = record {
  rest = blank 3994;
  packed = refl;
  filled = leaf_length;
  counted = refl;
  free = omega (arith, length-replicate {A = ℕ} 3994 0);
  fit = (fits 97 3 (omega arith), (fits 99 4 (omega arith), (fits 101 5 (omega arith), tt)));
}

three-Ascending : Ascending three
unfolding lex
three-Ascending zero j e f lt he hf = ground arith
three-Ascending (suc zero) j e f lt he hf = ground arith
three-Ascending (suc (suc zero)) j e f lt he hf = ground arith
three-Ascending (suc (suc (suc i))) j e f lt he hf = ground arith

three-KeysFit : KeysFit three 255
three-KeysFit zero e h = ground arith
three-KeysFit (suc zero) e h = ground arith
three-KeysFit (suc (suc zero)) e h = ground arith
three-KeysFit (suc (suc (suc i))) e h = ground arith

insert_kv_pair-Represents_example :
    ((page' : Page) × (entry_size (entry 98 9) ≤ leaf_page.free_space)
      × (insert_kv_pair leaf_page 1 (98 ∷ []) (7 ∷ []) 9 ≡ done (some page'))
      × Represents page' (take 1 three ++ (entry 98 9 ∷ drop 1 three)))
    ⊎ ((leaf_page.free_space < entry_size (entry 98 9))
        × (insert_kv_pair leaf_page 1 (98 ∷ []) (7 ∷ []) 9 ≡ done none))
insert_kv_pair-Represents_example =
    insert_kv_pair-Represents leaf_page three (three_of PageType.leaf) 1 (entry 98 9) (omega arith)
      (fits 98 9 (omega arith))

delete_kv_pair-Represents_example :
    ((page' : Page) × (1 < length three)
      × (delete_kv_pair leaf_page 1 ≡ done (some page'))
      × Represents page' (take 1 three ++ drop 2 three))
    ⊎ ((length three ≤ 1) × (delete_kv_pair leaf_page 1 ≡ done none))
delete_kv_pair-Represents_example =
    delete_kv_pair-Represents leaf_page three (three_of PageType.leaf) 1

find_key_position-IsFirstNotBelow_example :
    Ensures (find_key_position leaf_page (98 ∷ [])) (IsFirstNotBelow three (98 ∷ []))
find_key_position-IsFirstNotBelow_example =
    find_key_position-IsFirstNotBelow leaf_page three (three_of PageType.leaf) three-Ascending
      (98 ∷ [])

split_leaf_example :
    (s : SplitResult) × (btree_split_page leaf_page empty_page 8 255 ≡ done (some s))
    × LeafSplit leaf_page three 8 s
split_leaf_example =
    split_leaf leaf_page empty_page three (three_of PageType.leaf) empty_length 8 255 three-KeysFit
      (omega arith) refl

split_internal_example :
    (s : SplitResult) × (btree_split_page internal_page empty_page 8 255 ≡ done (some s))
    × InternalSplit internal_page three s
split_internal_example =
    split_internal internal_page empty_page three (three_of PageType.internal) empty_length 8 255
      three-KeysFit (omega arith) refl

-- A leaf whose count promises far more entries than it has.
abbrev corrupt_page : Page
corrupt_page = record leaf_page { key_count = 60000; free_space = 10 }

btree_split_page-BothPages_example :
    Ensures (btree_split_page corrupt_page empty_page 8 255) BothPages
btree_split_page-BothPages_example =
    btree_split_page-BothPages corrupt_page empty_page leaf_length empty_length 8 255

abbrev one_page : Page
one_page = record leaf_page { key_count = 1 }

split_single_example : btree_split_page one_page empty_page 8 255 ≡ done none
split_single_example = split_single one_page empty_page leaf_length empty_length 8 255 refl

compare_keys-lex_example : compare_keys (97 ∷ []) (97 ∷ 98 ∷ []) ≡ lex (97 ∷ []) (97 ∷ 98 ∷ [])
compare_keys-lex_example = compare_keys-lex (97 ∷ []) (97 ∷ 98 ∷ [])
