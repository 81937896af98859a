-- ===== src/Storage/Page/Reads.antt =====
-- On a well-formed page `get_kv_pair` and the key behind it (storage/src/btree.c) are the entry at
-- that index.
use mathlib.Core.List.{append_assoc}
use codo.Prelude.{
  ℕ, zero, suc, ◌+◌, ◌≤◌, ◌<◌, ◌≡◌, refl, ◌∙◌, ap, sym, subst, ◌*◌, some, List, [], ◌∷◌, ◌++◌,
  arith, length, take, drop, get_elem?, length-append, split_at, get_elem?-lt, take-append-drop,
  drop-append_self, take-append_self,
}
use codo.Storage.Memory.{done, load_bytes_in}
use codo.Storage.Page.{
  Page, kv_size, btree_page_capacity, get_kv_pair, load_key, key_at, encode_head,
}
use codo.Storage.Page.Safety.{length-encode_head}
use codo.Storage.Page.Entries.{
  Entry, Fits, AllFit, Represents, encode_entry, encode_all, offset_of, length-encode_entry,
  encode_all-append, load_head-entry,
}
use codo.Storage.Page.Walks.{get_kv_pair_from-offset_of}

pub load_key-entry :
    (pre post area : List ℕ) (e : Entry) (off : ℕ)
    → Fits e
    → area ≡ pre ++ (encode_entry e ++ post)
    → off ≡ length pre
    → load_key area off ≡ done e.key
unfolding load_key encode_entry
load_key-entry pre post area e off f packed at =
    let front = encode_head (length e.key) (length e.value) e.child in
    let flat : area ≡ (pre ++ front) ++ (e.key ++ (e.value ++ post)) =
      packed
      ∙ ap (◌++◌ pre) (append_assoc front (e.key ++ e.value) post)
      ∙ ap (λ l. pre ++ (front ++ l)) (append_assoc e.key e.value post)
      ∙ sym (append_assoc pre front (e.key ++ (e.value ++ post))) in
    let front_size : off + kv_size ≡ length (pre ++ front) = omega (
      arith,
      length-append pre front,
      length-encode_head (length e.key) (length e.value) e.child,
    ) in
    let bytes : take (length e.key) (drop (off + kv_size) area) ≡ e.key =
      ap (λ l. take (length e.key) (drop (off + kv_size) l)) flat
      ∙ ap (take (length e.key)) (drop-append_self (pre ++ front) _ (off + kv_size) front_size)
      ∙ take-append_self e.key (e.value ++ post) (length e.key) refl in
    let room : off + kv_size + length e.key ≤ length area = omega (
      arith,
      ap length flat,
      length-append (pre ++ front) (e.key ++ (e.value ++ post)),
      length-append e.key (e.value ++ post),
    ) in
    ground (
      arith,
      load_head-entry pre post area e off f packed at,
      load_bytes_in area (off + kv_size) (length e.key) room,
    )

pub AllFit-get :
    (es : List Entry) (i : ℕ) {e : Entry} → AllFit es → get_elem? es i ≡ some e → Fits e
AllFit-get [] i fit h = absurd (ground arith)
AllFit-get (f ∷ es) zero {e} fit h = subst Fits (ground arith) fit.0
AllFit-get (f ∷ es) (suc i) fit h = AllFit-get es i fit.1 h

pub AllFit-append : (es fs : List Entry) → AllFit es → AllFit fs → AllFit (es ++ fs)
AllFit-append [] fs p q = q
AllFit-append (e ∷ es) fs p q = (p.0, AllFit-append es fs p.1 q)

pub AllFit-take : (n : ℕ) (es : List Entry) → AllFit es → AllFit (take n es)
AllFit-take zero es p = tt
AllFit-take (suc n) [] p = tt
AllFit-take (suc n) (e ∷ es) p = (p.0, AllFit-take n es p.1)

pub AllFit-drop : (n : ℕ) (es : List Entry) → AllFit es → AllFit (drop n es)
AllFit-drop zero es p = p
AllFit-drop (suc n) [] p = tt
AllFit-drop (suc n) (e ∷ es) p = AllFit-drop n es p.1

-- The encoding around entry `i`, and around position `i`.
pub encode_around :
    (es : List Entry) (i : ℕ) (rest : List ℕ) {e : Entry}
    → get_elem? es i ≡ some e
    → encode_all es ++ rest
      ≡ encode_all (take i es) ++ (encode_entry e ++ (encode_all (drop (suc i) es) ++ rest))
unfolding encode_all
encode_around es i rest {e} h =
    ap (λ l. encode_all l ++ rest) (split_at es i h)
    ∙ ap (λ l. l ++ rest) (encode_all-append (take i es) (e ∷ drop (suc i) es))
    ∙ append_assoc (encode_all (take i es)) _ rest
    ∙ ap (◌++◌ (encode_all (take i es))) (append_assoc (encode_entry e) _ rest)

pub encode_at :
    (es : List Entry) (i : ℕ) (rest : List ℕ)
    → encode_all es ++ rest ≡ encode_all (take i es) ++ (encode_all (drop i es) ++ rest)
encode_at es i rest =
    ap (λ l. encode_all l ++ rest) (sym (take-append-drop i es))
    ∙ ap (λ l. l ++ rest) (encode_all-append (take i es) (drop i es))
    ∙ append_assoc (encode_all (take i es)) (encode_all (drop i es)) rest

pub length-encode_all-ge : (es : List Entry) → kv_size * length es ≤ length (encode_all es)
unfolding encode_all
length-encode_all-ge [] = omega arith
length-encode_all-ge (e ∷ es) = omega (
  arith,
  length-encode_all-ge es,
  length-append (encode_entry e) (encode_all es),
  length-encode_entry e,
)

module _ (page : Page) (es : List Entry) (r : Represents page es) where
  pub sizes : length (encode_all es) + page.free_space ≡ btree_page_capacity
  sizes = omega (arith, ap length r.packed, r.filled, r.free, length-append (encode_all es) r.rest)

  -- `get_kv_pair` finds entry `i` at its offset.
  pub get_kv_pair-offset_of :
      (i : ℕ) → i < length es → get_kv_pair page i ≡ done (some (offset_of es i))
  unfolding get_kv_pair
  get_kv_pair-offset_of i h =
      ground
        (arith, sizes, get_kv_pair_from-offset_of i es [] r.rest page.area 0 r.fit r.packed refl)

  -- The key that the binary search reads at `i` is that of entry `i`.
  pub key_at-get : (i : ℕ) {e : Entry} → get_elem? es i ≡ some e → key_at page i ≡ done (some e.key)
  unfolding key_at
  key_at-get i {e} h = ground (
    arith,
    get_kv_pair-offset_of i (get_elem?-lt es i h),
    load_key-entry (encode_all (take i es)) (encode_all (drop (suc i) es) ++ r.rest) page.area e
        (offset_of es i) (AllFit-get es i r.fit h) (r.packed ∙ encode_around es i r.rest h) refl,
  )
