-- ===== src/Storage/Page/Split/Parts.antt =====
-- The steps of `btree_split_page` (storage/src/btree.c) on a well-formed page.
use codo.Prelude.{
  ℕ, suc, ◌+◌, ◌-◌, ◌%◌, ◌≤◌, ◌≡◌, refl, ◌∙◌, ap, some, List, [], ◌++◌, arith, length, take, drop,
  get_elem?, get_elem?-lt, length-append, length-take, length-drop, drop-append_self,
  take-append_self, if◌then◌else◌,
}
use codo.Storage.Memory.{done, load_bytes_in, store_bytes_in, overwrite, length-overwrite}
use codo.Storage.Page.{Page, btree_page_capacity, u16_mod, load_head, load_key, entry_offset}
use codo.Storage.Page.Safety.{HasArea}
use codo.Storage.Page.Entries.{
  Entry, Represents, entry_size, encode_entry, encode_all, offset_of, head_of, length-encode_entry,
  load_head-entry,
}
use codo.Storage.Page.Walks.{entry_offset_from-offset_of}
use codo.Storage.Page.Reads.{
  sizes, encode_around, encode_at, AllFit-get, AllFit-take, AllFit-drop, length-encode_all-ge,
  load_key-entry,
}
use codo.Storage.Page.Split.{separator_at, carve, RightPart, SplitResult, is_leaf}

module _ (src : Page) (es : List Entry) (r : Represents src es) where
  abbrev pub used_of : ℕ
  used_of = btree_page_capacity - src.free_space

  pub entry_offset-offset_of :
      (i : ℕ) → i ≤ length es → entry_offset src i used_of ≡ done (some (offset_of es i))
  unfolding entry_offset
  entry_offset-offset_of i h = ground (
    arith,
    sizes src es r,
    entry_offset_from-offset_of i es [] r.rest src.area used_of 0 r.fit r.packed refl,
  )

  -- Where entry `i` stands in the used bytes.
  pub offset_of_bound :
      (i : ℕ) {e : Entry}
      → get_elem? es i ≡ some e
      → offset_of es i + entry_size e + length (encode_all (drop (suc i) es)) ≡ used_of
  offset_of_bound i {e} h = omega (
    arith,
    sizes src es r,
    ap length (encode_around es i [] h),
    length-append (encode_all es) [],
    length-append (encode_all (take i es)) (encode_entry e ++ (encode_all (drop (suc i) es) ++ [])),
    length-append (encode_entry e) (encode_all (drop (suc i) es) ++ []),
    length-append (encode_all (drop (suc i) es)) [],
    length-encode_entry e,
  )

  pub offset_of_split : (i : ℕ) → offset_of es i + length (encode_all (drop i es)) ≡ used_of
  offset_of_split i = omega (
    arith,
    sizes src es r,
    ap length (encode_at es i []),
    length-append (encode_all es) [],
    length-append (encode_all (take i es)) (encode_all (drop i es) ++ []),
    length-append (encode_all (drop i es)) [],
  )

  pub load_head_at :
      (i : ℕ) {e : Entry}
      → get_elem? es i ≡ some e
      → load_head src.area (offset_of es i) ≡ done (head_of e)
  load_head_at i {e} h =
      load_head-entry (encode_all (take i es)) (encode_all (drop (suc i) es) ++ r.rest) src.area e
        (offset_of es i) (AllFit-get es i r.fit h) (r.packed ∙ encode_around es i r.rest h) refl

  pub separator_at-get :
      (i max_size : ℕ) {e : Entry}
      → get_elem? es i ≡ some e
      → length e.key ≤ max_size
      → separator_at src i used_of max_size ≡ done (some e.key)
  unfolding separator_at load_key
  separator_at-get i max_size {e} h fits = ground (
    arith,
    entry_offset-offset_of i (omega (arith, get_elem?-lt es i h)),
    offset_of_bound i h,
    load_head_at i h,
    load_key-entry (encode_all (take i es)) (encode_all (drop (suc i) es) ++ r.rest) src.area e
        (offset_of es i) (AllFit-get es i r.fit h) (r.packed ∙ encode_around es i r.rest h) refl,
  )

  module _ (dst : Page) (dst_id mid k : ℕ) (sep : List ℕ) (promoted : ℕ) (room : HasArea dst) where
    abbrev pub part : RightPart
    part = record {
      right_offset = offset_of es k;
      right_count = length es - k;
      promoted_child = promoted;
    }

    abbrev pub carved : SplitResult
    carved = record {
      left = record src {
        key_count = mid % u16_mod;
        free_space = (btree_page_capacity - offset_of es mid) % u16_mod;
        next_page_id = if is_leaf src.page_type then dst_id else promoted;
      };
      right = record dst {
        page_id = dst_id;
        page_type = src.page_type;
        key_count = (length es - k) % u16_mod;
        free_space = (btree_page_capacity - (used_of - offset_of es k)) % u16_mod;
        next_page_id = src.next_page_id;
        area = overwrite dst.area 0 (encode_all (drop k es));
      };
      separator = sep;
    }

    right_bytes :
        take (used_of - offset_of es k) (drop (offset_of es k) src.area) ≡ encode_all (drop k es)
    right_bytes =
        ap (λ l. take (used_of - offset_of es k) (drop (offset_of es k) l))
          (r.packed ∙ encode_at es k r.rest)
        ∙ ap (take (used_of - offset_of es k))
            (drop-append_self (encode_all (take k es)) _ (offset_of es k) refl)
        ∙ take-append_self (encode_all (drop k es)) r.rest (used_of - offset_of es k)
            (omega (arith, offset_of_split k))

    pub carve_lem :
        carve src dst dst_id used_of mid (offset_of es mid) sep part ≡ done (some carved)
    unfolding carve
    carve_lem = ground (
      arith,
      offset_of_split k,
      r.filled,
      right_bytes,
      load_bytes_in src.area (offset_of es k) (used_of - offset_of es k)
          (omega (arith, offset_of_split k, r.filled)),
      store_bytes_in dst.area 0 (encode_all (drop k es)) (omega (arith, offset_of_split k)),
    )

    pub left-Represents : mid ≤ length es → Represents carved.left (take mid es)
    left-Represents h = record {
      rest = encode_all (drop mid es) ++ r.rest;
      packed = r.packed ∙ encode_at es mid r.rest;
      filled = r.filled;
      counted = omega (arith, length-take mid es, length-encode_all-ge es, sizes src es r);
      free = omega (
        arith,
        length-append (encode_all (drop mid es)) r.rest,
        offset_of_split mid,
        r.free,
        sizes src es r,
      );
      fit = AllFit-take mid es r.fit;
    }

    pub right-Represents : Represents carved.right (drop k es)
    unfolding overwrite
    right-Represents =
        let bytes = encode_all (drop k es) in
        record {
          rest = drop (0 + length bytes) dst.area;
          packed = refl;
          filled = length-overwrite dst.area 0 bytes (omega (arith, offset_of_split k)) ∙ room;
          counted = omega (arith, length-drop k es, length-encode_all-ge es, sizes src es r);
          free = omega (arith, length-drop (0 + length bytes) dst.area, offset_of_split k);
          fit = AllFit-drop k es r.fit;
        }
