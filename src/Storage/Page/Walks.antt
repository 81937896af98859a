-- ===== src/Storage/Page/Walks.antt =====
-- On a well-formed page the offset walks of storage/src/btree.c find the entry that they look for.
use codo.Prelude.{
  ℕ, zero, suc, ◌+◌, ◌≤◌, ◌<◌, ◌≡◌, some, List, [], ◌∷◌, ◌++◌, arith, length, length-append, sym,
  ap, ◌∙◌, take,
}
use mathlib.Core.List.{append_assoc}
use codo.Storage.Memory.{done}
use codo.Storage.Page.{btree_page_capacity, entry_offset_from, get_kv_pair_from}
use codo.Storage.Page.Entries.{
  Entry, AllFit, encode_entry, encode_all, offset_of, length-encode_entry, load_head-entry,
  entry_size,
}

-- The walk to entry `n`, from the entry at `off`.
pub entry_offset_from-offset_of :
    (n : ℕ) (es : List Entry) (pre rest area : List ℕ) (used off : ℕ)
    → AllFit es
    → area ≡ pre ++ (encode_all es ++ rest)
    → off ≡ length pre
    → used ≡ off + length (encode_all es)
    → n ≤ length es
    → entry_offset_from area used n off ≡ done (some (off + offset_of es n))
unfolding entry_offset_from encode_all
entry_offset_from-offset_of zero es pre rest area used off fit packed at end h = ground arith
entry_offset_from-offset_of (suc n) [] pre rest area used off fit packed at end h =
    absurd (omega arith)
entry_offset_from-offset_of (suc n) (e ∷ es) pre rest area used off fit packed at end h =
    let unpacked : area ≡ pre ++ (encode_entry e ++ (encode_all es ++ rest)) =
      packed ∙ ap (◌++◌ pre) (append_assoc (encode_entry e) (encode_all es) rest) in
    let behind : area ≡ (pre ++ encode_entry e) ++ (encode_all es ++ rest) =
      unpacked ∙ sym (append_assoc pre (encode_entry e) (encode_all es ++ rest)) in
    ground (
      arith,
      load_head-entry pre (encode_all es ++ rest) area e off fit.0 unpacked at,
      length-encode_entry e,
      length-append pre (encode_entry e),
      length-append (encode_entry e) (encode_all es),
      length-append (encode_entry e) (encode_all (take n es)),
      entry_offset_from-offset_of n es (pre ++ encode_entry e) rest area used (off + entry_size e)
          fit.1 behind,
    )

-- The same for the walk of `get_kv_pair`, which stops at a pair and not behind it.
pub get_kv_pair_from-offset_of :
    (n : ℕ) (es : List Entry) (pre rest area : List ℕ) (off : ℕ)
    → AllFit es
    → area ≡ pre ++ (encode_all es ++ rest)
    → off ≡ length pre
    → off + length (encode_all es) ≤ btree_page_capacity
    → n < length es
    → get_kv_pair_from area n off ≡ done (some (off + offset_of es n))
unfolding get_kv_pair_from encode_all
get_kv_pair_from-offset_of n [] pre rest area off fit packed at end h = absurd (omega arith)
get_kv_pair_from-offset_of zero (e ∷ es) pre rest area off fit packed at end h =
    let unpacked : area ≡ pre ++ (encode_entry e ++ (encode_all es ++ rest)) =
      packed ∙ ap (◌++◌ pre) (append_assoc (encode_entry e) (encode_all es) rest) in
    ground (
      arith,
      load_head-entry pre (encode_all es ++ rest) area e off fit.0 unpacked at,
      length-encode_entry e,
      length-append (encode_entry e) (encode_all es),
    )
get_kv_pair_from-offset_of (suc n) (e ∷ es) pre rest area off fit packed at end h =
    let unpacked : area ≡ pre ++ (encode_entry e ++ (encode_all es ++ rest)) =
      packed ∙ ap (◌++◌ pre) (append_assoc (encode_entry e) (encode_all es) rest) in
    let behind : area ≡ (pre ++ encode_entry e) ++ (encode_all es ++ rest) =
      unpacked ∙ sym (append_assoc pre (encode_entry e) (encode_all es ++ rest)) in
    ground (
      arith,
      load_head-entry pre (encode_all es ++ rest) area e off fit.0 unpacked at,
      length-encode_entry e,
      length-append pre (encode_entry e),
      length-append (encode_entry e) (encode_all es),
      length-append (encode_entry e) (encode_all (take n es)),
      get_kv_pair_from-offset_of n es (pre ++ encode_entry e) rest area (off + entry_size e) fit.1
          behind,
    )
