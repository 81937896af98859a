-- ===== src/Storage/Page/Entries.antt =====
-- What a well-formed page of storage/src/btree.c holds: a list of entries, packed one behind the
-- other from the start of the data area.
use codo.Prelude.{
  ℕ, ◌+◌, ◌<◌, ◌≡◌, refl, ◌∙◌, ap, some, List, [], ◌∷◌, ◌++◌, arith, length, take, drop,
  drop-append_self, length-append,
}
use mathlib.Core.List.{append_assoc}
use codo.Storage.Memory.{done}
use codo.Storage.Page.{
  Page, KvHead, kv_size, btree_page_capacity, decode_head, encode_head, load_head,
}
use codo.Storage.Page.Safety.{length-encode_head}

pub record Entry : Type 0 where
  pub key : List ℕ
  pub value : List ℕ
  pub child : ℕ

-- The lengths and the child fit the fields of `kv_pair_t`.
pub record Fits (e : Entry) : Type 0 where
  pub key_fits : length e.key < 65536
  pub value_fits : length e.value < 65536
  pub child_fits : e.child < 4294967296

abbrev pub AllFit : List Entry → Type 0
AllFit [] = Unit
AllFit (e ∷ es) = Fits e × AllFit es

abbrev pub head_of : Entry → KvHead
head_of e = record {
  key_length = length e.key;
  value_length = length e.value;
  child_page_id = e.child;
}

abbrev pub entry_size : Entry → ℕ
entry_size e = kv_size + length e.key + length e.value

unfoldable pub encode_entry : Entry → List ℕ
encode_entry e = encode_head (length e.key) (length e.value) e.child ++ (e.key ++ e.value)

unfoldable pub encode_all : List Entry → List ℕ
encode_all [] = []
encode_all (e ∷ es) = encode_entry e ++ encode_all es

-- The offset of entry `n`.
abbrev pub offset_of : List Entry → ℕ → ℕ
offset_of es n = length (encode_all (take n es))

-- The page holds exactly `entries`; `rest` are the bytes behind them, of which nothing is said.
pub record Represents (page : Page) (entries : List Entry) : Type 0 where
  pub rest : List ℕ
  pub packed : page.area ≡ encode_all entries ++ rest
  pub filled : length page.area ≡ btree_page_capacity
  pub counted : page.key_count ≡ length entries
  pub free : page.free_space ≡ length rest
  pub fit : AllFit entries

pub length-encode_entry : (e : Entry) → length (encode_entry e) ≡ entry_size e
unfolding encode_entry
length-encode_entry e = omega (
  arith,
  length-append (encode_head (length e.key) (length e.value) e.child) (e.key ++ e.value),
  length-append e.key e.value,
  length-encode_head (length e.key) (length e.value) e.child,
)

pub encode_all-append :
    (es fs : List Entry) → encode_all (es ++ fs) ≡ encode_all es ++ encode_all fs
unfolding encode_all
encode_all-append [] fs = refl
encode_all-append (e ∷ es) fs = rw (encode_all-append es fs, append_assoc) refl

decode_head-encode_head :
    (k v c : ℕ) (rest : List ℕ)
    → k < 65536
    → v < 65536
    → c < 4294967296
    → decode_head (encode_head k v c ++ rest)
      ≡ some (record { key_length = k; value_length = v; child_page_id = c })
unfolding decode_head encode_head
decode_head-encode_head k v c rest hk hv hc = ground arith

-- Reading the fixed part of an entry gives back what was written.
pub load_head-entry :
    (pre post area : List ℕ) (e : Entry) (off : ℕ)
    → Fits e
    → area ≡ pre ++ (encode_entry e ++ post)
    → off ≡ length pre
    → load_head area off ≡ done (head_of e)
unfolding load_head encode_entry
load_head-entry pre post area e off f packed at =
    let front = encode_head (length e.key) (length e.value) e.child in
    let at_entry : drop off area ≡ front ++ ((e.key ++ e.value) ++ post) =
      ap (drop off) packed
      ∙ drop-append_self pre _ off at
      ∙ append_assoc front (e.key ++ e.value) post in
    let decoded : decode_head (drop off area) ≡ some (head_of e) =
      ap decode_head at_entry
      ∙ decode_head-encode_head _ _ _ _ f.key_fits f.value_fits f.child_fits in
    ground arith
