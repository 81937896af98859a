-- ===== src/Storage/Page/Update.antt =====
-- On a well-formed page `insert_kv_pair` and `delete_kv_pair` of storage/src/btree.c are the
-- operations on its list of entries.
use codo.Prelude.{
  ℕ, suc, ◌+◌, ◌-◌, ◌≤◌, ◌<◌, ◌%◌, ◌≡◌, refl, sym, ◌∙◌, ap, none, some, List, [], ◌∷◌, ◌++◌, arith,
  length, take, drop, get_elem?, length-append, length-drop, length-take, get_elem?-lt,
  get_elem?_in, ◌⊎◌, inl, inr,
}
use mathlib.Core.List.{append_assoc}
use native.Mathlib.Decide.{dec_le}
use codo.Storage.Memory.{
  done, overwrite, moved, memmove, memmove_in, store_bytes_in, length-overwrite,
}
use codo.Storage.Memory.Moves.{overwrite-moved_up, moved_down}
use codo.Storage.Page.{
  Page, btree_page_capacity, u16_mod, insert_at, insert_kv_pair, delete_at, delete_kv_pair,
}
use codo.Storage.Page.Entries.{
  Entry, Fits, Represents, entry_size, encode_entry, encode_all, offset_of, length-encode_entry,
  encode_all-append, load_head-entry,
}
use codo.Storage.Page.Walks.{entry_offset_from-offset_of}
use codo.Storage.Page.Reads.{
  AllFit-append, AllFit-take, AllFit-drop, AllFit-get, encode_around, encode_at,
  length-encode_all-ge, sizes, get_kv_pair-offset_of,
}

module _ (page : Page) (es : List Entry) (r : Represents page es) (i : ℕ) where
  abbrev used : ℕ
  used = btree_page_capacity - page.free_space

  module _ (e : Entry) where
    -- The page after the insertion of `e` at the offset of entry `i`.
    abbrev inserted : Page
    inserted =
        let off = offset_of es i in
        record page {
          area =
              overwrite (moved page.area (off + entry_size e) off (used - off)) off
                (encode_entry e);
          key_count = (page.key_count + 1) % u16_mod;
          free_space = (page.free_space - entry_size e) % u16_mod;
        }

    module _ (within : i ≤ length es) (f : Fits e) (room : entry_size e ≤ page.free_space) where
      middle : offset_of es i + length (encode_all (drop i es)) ≡ used
      middle = omega (
        arith,
        sizes page es r,
        ap length (encode_at es i []),
        length-append (encode_all es) [],
        length-append (encode_all (take i es)) (encode_all (drop i es) ++ []),
        length-append (encode_all (drop i es)) [],
      )

      inserted_area :
          inserted.area ≡ encode_all (take i es ++ (e ∷ drop i es)) ++ drop (entry_size e) r.rest
      unfolding encode_all
      inserted_area =
          let off = offset_of es i in
          let tail = encode_all (drop i es) in
          let len : used - off ≡ length tail = omega (arith, middle) in
          ap (λ n. overwrite (moved page.area (off + entry_size e) off n) off (encode_entry e)) len
          ∙ overwrite-moved_up (encode_all (take i es)) tail r.rest off (entry_size e)
              (encode_entry e) page.area (r.packed ∙ encode_at es i r.rest) refl
              (omega (arith, length-encode_entry e)) (omega (arith, r.free))
          ∙ ap (◌++◌ (encode_all (take i es)))
              (sym (append_assoc (encode_entry e) tail (drop (entry_size e) r.rest)))
          ∙ sym (
              append_assoc (encode_all (take i es)) (encode_entry e ++ tail)
                (drop (entry_size e) r.rest))
          ∙ ap (λ l. l ++ drop (entry_size e) r.rest)
              (sym (encode_all-append (take i es) (e ∷ drop i es)))

      shift_in :
          let off = offset_of es i in
          (memmove page.area (off + entry_size e) off (used - off)
            ≡ done (moved page.area (off + entry_size e) off (used - off)))
          × (length (moved page.area (off + entry_size e) off (used - off)) ≡ length page.area)
      shift_in =
          memmove_in page.area (offset_of es i + entry_size e) (offset_of es i)
            (used - offset_of es i) (omega (arith, middle, r.filled, sizes page es r))
            (omega (arith, middle, r.filled))

      room_for_cells :
          offset_of es i + length (encode_entry e)
          ≤ length (
              moved page.area
                (offset_of es i + entry_size e)
                (offset_of es i)
                (used - offset_of es i))
      room_for_cells =
          omega (arith, shift_in, middle, r.filled, sizes page es r, length-encode_entry e)

      -- The new page holds the list with `e` put in at `i`.
      inserted-Represents : Represents inserted (take i es ++ (e ∷ drop i es))
      inserted-Represents = record {
        rest = drop (entry_size e) r.rest;
        packed = inserted_area;
        filled =
            length-overwrite
              (moved page.area (offset_of es i + entry_size e) (offset_of es i)
                (used - offset_of es i))
              (offset_of es i) (encode_entry e) room_for_cells
            ∙ shift_in.1
            ∙ r.filled;
        counted = omega (
          arith,
          r.counted,
          length-append (take i es) (e ∷ drop i es),
          length-take i es,
          length-drop i es,
          length-encode_all-ge es,
          sizes page es r,
        );
        free = omega (arith, r.free, length-drop (entry_size e) r.rest, sizes page es r);
        fit =
            AllFit-append (take i es) (e ∷ drop i es) (AllFit-take i es r.fit)
              (f, AllFit-drop i es r.fit);
      }

      inserted_lem : insert_kv_pair page i e.key e.value e.child ≡ done (some inserted)
      unfolding insert_kv_pair insert_at encode_entry
      inserted_lem = ground (
        arith,
        sizes page es r,
        entry_offset_from-offset_of i es [] r.rest page.area used 0 r.fit r.packed refl,
        shift_in,
        store_bytes_in
            (moved page.area (offset_of es i + entry_size e) (offset_of es i)
              (used - offset_of es i))
            (offset_of es i) (encode_entry e) room_for_cells,
      )

    full_lem :
        page.free_space < entry_size e → insert_kv_pair page i e.key e.value e.child ≡ done none
    unfolding insert_kv_pair
    full_lem h = ground arith

    -- An insertion with room keeps the page's type and its link.
    pub insert_kv_pair-room :
        i ≤ length es
        → Fits e
        → entry_size e ≤ page.free_space
        → (page' : Page) × (insert_kv_pair page i e.key e.value e.child ≡ done (some page'))
          × Represents page' (take i es ++ (e ∷ drop i es))
          × (page'.page_type ≡ page.page_type)
          × (page'.next_page_id ≡ page.next_page_id)
    insert_kv_pair-room within f room =
        (inserted, inserted_lem within f room, inserted-Represents within f room, refl, refl)

    -- On a well-formed page, at a position inside it, an entry whose lengths fit is put in at that
    -- position if the free space suffices; otherwise the insertion returns -1.
    pub insert_kv_pair-Represents :
        i ≤ length es
        → Fits e
        → ((page' : Page) × (entry_size e ≤ page.free_space)
            × (insert_kv_pair page i e.key e.value e.child ≡ done (some page'))
            × Represents page' (take i es ++ (e ∷ drop i es)))
          ⊎ ((page.free_space < entry_size e)
              × (insert_kv_pair page i e.key e.value e.child ≡ done none))
    insert_kv_pair-Represents within f = elim (dec_le (entry_size e) page.free_space) [
      | yes room ↦
          inl (inserted, room, inserted_lem within f room, inserted-Represents within f room)
      | no full ↦ inr (omega arith, full_lem (omega arith))
    ]

  module _ {e : Entry} (h : get_elem? es i ≡ some e) where
    abbrev deleted : Page
    deleted =
        let next = offset_of es i + entry_size e in
        record page {
          area = moved page.area (offset_of es i) next (used - next);
          key_count = page.key_count - 1;
          free_space = (page.free_space + entry_size e) % u16_mod;
        }

    abbrev behind : List ℕ
    behind = encode_all (drop (suc i) es)

    behind_size : offset_of es i + entry_size e + length behind ≡ used
    behind_size = omega (
      arith,
      sizes page es r,
      ap length (encode_around es i [] h),
      length-append (encode_all es) [],
      length-append (encode_all (take i es)) (encode_entry e ++ (behind ++ [])),
      length-append (encode_entry e) (behind ++ []),
      length-append behind [],
      length-encode_entry e,
    )

    deleted_area :
        deleted.area
        ≡ encode_all (take i es ++ drop (suc i) es)
          ++ drop (length behind) (encode_entry e ++ (behind ++ r.rest))
    deleted_area =
        let off = offset_of es i in
        let len : used - (off + entry_size e) ≡ length behind = omega (arith, behind_size) in
        ap (moved page.area off (off + entry_size e)) len
        ∙ moved_down (encode_all (take i es)) (encode_entry e) behind r.rest page.area off
            (off + entry_size e) (r.packed ∙ encode_around es i r.rest h) refl
            (omega (arith, length-encode_entry e))
        ∙ sym (append_assoc (encode_all (take i es)) behind _)
        ∙ ap (λ l. l ++ drop (length behind) (encode_entry e ++ (behind ++ r.rest)))
            (sym (encode_all-append (take i es) (drop (suc i) es)))

    shift_down :
        let off = offset_of es i in
        let next = off + entry_size e in
        (memmove page.area off next (used - next) ≡ done (moved page.area off next (used - next)))
        × (length (moved page.area off next (used - next)) ≡ length page.area)
    shift_down =
        memmove_in page.area (offset_of es i) (offset_of es i + entry_size e)
          (used - (offset_of es i + entry_size e)) (omega (arith, behind_size, r.filled))
          (omega (arith, behind_size, r.filled))

    deleted-Represents : Represents deleted (take i es ++ drop (suc i) es)
    deleted-Represents = record {
      rest = drop (length behind) (encode_entry e ++ (behind ++ r.rest));
      packed = deleted_area;
      filled = shift_down.1 ∙ r.filled;
      counted = omega (
        arith,
        r.counted,
        get_elem?-lt es i h,
        length-append (take i es) (drop (suc i) es),
        length-take i es,
        length-drop (suc i) es,
      );
      free = omega (
        arith,
        r.free,
        behind_size,
        sizes page es r,
        length-drop (length behind) (encode_entry e ++ (behind ++ r.rest)),
        length-append (encode_entry e) (behind ++ r.rest),
        length-append behind r.rest,
        length-encode_entry e,
      );
      fit =
          AllFit-append (take i es) (drop (suc i) es) (AllFit-take i es r.fit)
            (AllFit-drop (suc i) es r.fit);
    }

    deleted_lem : delete_kv_pair page i ≡ done (some deleted)
    unfolding delete_kv_pair delete_at
    deleted_lem = ground (
      arith,
      sizes page es r,
      r.counted,
      get_elem?-lt es i h,
      get_kv_pair-offset_of page es r i (get_elem?-lt es i h),
      behind_size,
      shift_down,
      load_head-entry (encode_all (take i es)) (behind ++ r.rest) page.area e (offset_of es i)
          (AllFit-get es i r.fit h) (r.packed ∙ encode_around es i r.rest h) refl,
    )

  -- A deletion inside the page keeps the page's type and its link.
  pub delete_kv_pair-get :
      {e : Entry}
      → get_elem? es i ≡ some e
      → (page' : Page) × (delete_kv_pair page i ≡ done (some page'))
        × Represents page' (take i es ++ drop (suc i) es)
        × (page'.page_type ≡ page.page_type)
        × (page'.next_page_id ≡ page.next_page_id)
  delete_kv_pair-get h = (deleted h, deleted_lem h, deleted-Represents h, refl, refl)

  -- On a well-formed page a deletion inside the page takes out the entry at that position, and one
  -- outside returns -1.
  pub delete_kv_pair-Represents :
      ((page' : Page) × (i < length es)
        × (delete_kv_pair page i ≡ done (some page'))
        × Represents page' (take i es ++ drop (suc i) es))
      ⊎ ((length es ≤ i) × (delete_kv_pair page i ≡ done none))
  unfolding delete_kv_pair
  delete_kv_pair-Represents = elim (dec_le (length es) i) [
    | yes out ↦ inr (out, ground (arith, r.counted))
    | no inside ↦
        let (e, h) = get_elem?_in es i (omega arith) in
        inl (deleted h, omega arith, deleted_lem h, deleted-Represents h)
  ]
