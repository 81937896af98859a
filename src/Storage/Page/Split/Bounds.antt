-- ===== src/Storage/Page/Split/Bounds.antt =====
-- `btree_split_page` of storage/src/btree.c on any page: no access outside it, and what a page with
-- one entry gives.
use codo.Prelude.{
  ℕ, zero, suc, ◌+◌, ◌-◌, ◌≤◌, ◌≡◌, true, false, Option, none, some, List, Bool-cases, inl, inr,
  ltb, leb, arith, length, take, drop, if◌then◌else◌, ◌||◌,
}
use codo.Storage.Memory.{
  Run, done, ◌>>=◌, Ensures, >>=-Ensures, >>=-Ensures_eq, Ensures-mono, load_bytes, load_bytes_in,
  store_bytes_in, length-loaded, length-overwrite,
}
use codo.Storage.Page.{
  Page, kv_size, btree_page_capacity, btree_used_bytes, pair_size, load_head, entry_offset,
}
use codo.Storage.Page.Safety.{HasArea, Within, head_at, load_head_in, entry_offset_from-Within}
use codo.Storage.Page.Split.{
  RightPart, SplitResult, is_leaf, choose_split_from, choose_split_index, separator_at, right_part,
  carve, btree_split_page,
}

choose_split_from_safe :
    (n : ℕ) (area : List ℕ) (used key_count i offset : ℕ)
    → used ≤ length area
    → Ensures (choose_split_from area used key_count n i offset) (λ _. Unit)
unfolding choose_split_from
choose_split_from_safe zero area used key_count i offset fits = tt
choose_split_from_safe (suc n) area used key_count i offset fits = ground (
  arith,
  load_head_in area offset,
  choose_split_from_safe n area used key_count (i + 1) (offset + pair_size (head_at area offset))
      fits,
)

-- Both halves are pages again.
abbrev pub BothPages : Option SplitResult → Type 0
BothPages none = Unit
BothPages (some s) = HasArea s.left × HasArea s.right

module _ (src dst : Page) (size : HasArea src) (room : HasArea dst) where
  entry_offset-Within :
      (i used : ℕ) → used ≤ btree_page_capacity → Ensures (entry_offset src i used) (Within used)
  unfolding entry_offset
  entry_offset-Within i used h =
      entry_offset_from-Within src.area used i 0 (omega arith) (omega arith)

  -- A separator comes with room for the fixed part of its entry.
  abbrev Placed : ℕ → ℕ → Option (List ℕ) → Type 0
  Placed i used none = Unit
  Placed i used (some key) =
      (off : ℕ) × (entry_offset src i used ≡ done (some off)) × (off + kv_size ≤ used)

  abbrev separator_from : ℕ → ℕ → Option ℕ → Run (Option (List ℕ))
  separator_from used max_size none = done none
  separator_from used max_size (some off) = elim (ltb used (off + kv_size)) [
    | true ↦ done none
    | false ↦ load_head src.area off >>= λ kv.
        if ltb (used - off) (kv_size + kv.key_length) || ltb max_size kv.key_length
        then done none
        else (load_bytes src.area (off + kv_size) kv.key_length >>= λ key. done (some key))
  ]

  abbrev HasRoom : ℕ → ℕ → Option (List ℕ) → Type 0
  HasRoom off used none = Unit
  HasRoom off used (some key) = off + kv_size ≤ used

  separator_from-HasRoom :
      (used max_size off : ℕ)
      → used ≤ btree_page_capacity
      → off ≤ used
      → Ensures (separator_from used max_size (some off)) (HasRoom off used)
  separator_from-HasRoom used max_size off h inside = ground (
    arith,
    load_head_in src.area off,
    load_bytes_in src.area (off + kv_size) (head_at src.area off).key_length,
  )

  separator_at-Placed :
      (i used max_size : ℕ)
      → used ≤ btree_page_capacity
      → Ensures (separator_at src i used max_size) (Placed i used)
  unfolding separator_at
  separator_at-Placed i used max_size h =
      >>=-Ensures_eq (entry_offset src i used) (separator_from used max_size) (Within used)
        (Placed i used) (entry_offset-Within i used h)
        (elim [
          | none ↦ λ e w. tt
          | some off ↦ λ e w.
              Ensures-mono (separator_from used max_size (some off)) (HasRoom off used)
                (Placed i used) (elim [ none ↦ λ x. tt | some key ↦ λ x. (off, e, x) ])
                (separator_from-HasRoom used max_size off h w)
        ])

  carve-BothPages :
      (dst_id used mid split_offset : ℕ) (sep : List ℕ) (part : RightPart)
      → used ≤ btree_page_capacity
      → Ensures (carve src dst dst_id used mid split_offset sep part) BothPages
  unfolding carve
  carve-BothPages dst_id used mid split_offset sep part h =
      let from = part.right_offset in
      let bytes = take (used - from) (drop from src.area) in
      ground (
        arith,
        load_bytes_in src.area from (used - from),
        length-loaded src.area from (used - from),
        store_bytes_in dst.area 0 bytes,
        length-overwrite dst.area 0 bytes,
      )

  right_part_safe :
      (mid used split_offset : ℕ)
      → used ≤ btree_page_capacity
      → (is_leaf src.page_type ≡ false → split_offset + kv_size ≤ used)
      → Ensures (right_part src mid used split_offset) (λ _. Unit)
  unfolding right_part
  right_part_safe mid used split_offset h near = elim (Bool-cases (is_leaf src.page_type)) [
    | inl leaf ↦ ground arith
    | inr inner ↦ let inside = near inner in ground (arith, load_head_in src.area split_offset)
  ]

  module _ (dst_id max_size : ℕ) where
    abbrev sep_index : ℕ → ℕ
    sep_index mid = if is_leaf src.page_type then mid - 1 else mid

    after_offset : ℕ → ℕ → List ℕ → Option ℕ → Run (Option SplitResult)
    after_offset used mid separator found = elim found [
      | none ↦ done none
      | some split_offset ↦
          if ltb used split_offset
          then done none
          else (right_part src mid used split_offset >>= λ part. elim part [
            | none ↦ done none
            | some p ↦ carve src dst dst_id used mid split_offset separator p
          ])
    ]

    after_offset-BothPages :
        (used mid : ℕ) (sep : List ℕ)
        → used ≤ btree_page_capacity
        → Placed (sep_index mid) used (some sep)
        → Ensures (entry_offset src mid used >>= after_offset used mid sep) BothPages
    unfolding after_offset
    after_offset-BothPages used mid sep h (off, e, near) =
        >>=-Ensures_eq (entry_offset src mid used) (after_offset used mid sep) (Within used)
          BothPages (entry_offset-Within mid used h)
          (elim [
            | none ↦ λ e' w. tt
            | some split_offset ↦ λ e' w. elim (Bool-cases (ltb used split_offset)) [
              | inl over ↦ rw over tt
              | inr inside ↦ rw inside (
                  >>=-Ensures (right_part src mid used split_offset)
                    (λ part. elim part [
                      | none ↦ done none
                      | some p ↦ carve src dst dst_id used mid split_offset sep p
                    ])
                    (λ _. Unit) BothPages
                    (right_part_safe mid used split_offset h
                      (λ inner. let same : sep_index mid ≡ mid = rw inner in ground arith))
                    (elim [
                      | none ↦ λ _. tt
                      | some p ↦ λ _. carve-BothPages dst_id used mid split_offset sep p h
                    ]))
            ]
          ])

    after_separator : ℕ → ℕ → Option (List ℕ) → Run (Option SplitResult)
    unfolding after_offset
    after_separator used mid sep = elim sep [
      | none ↦ done none
      | some separator ↦ entry_offset src mid used >>= after_offset used mid separator
    ]

    after_choice : ℕ → Option ℕ → Run (Option SplitResult)
    unfolding after_separator
    after_choice used chosen = elim chosen [
      | none ↦ done none
      | some mid ↦
          if leb src.key_count mid
          then done none
          else (separator_at src (sep_index mid) used max_size >>= after_separator used mid)
    ]

    after_choice-BothPages :
        (used : ℕ) (chosen : Option ℕ)
        → used ≤ btree_page_capacity
        → Ensures (after_choice used chosen) BothPages
    unfolding after_choice
    after_choice-BothPages used none h = tt
    after_choice-BothPages used (some mid) h = elim (Bool-cases (leb src.key_count mid)) [
      | inl out ↦ rw out tt
      | inr inside ↦ rw inside (
          >>=-Ensures (separator_at src (sep_index mid) used max_size) (after_separator used mid)
            (Placed (sep_index mid) used) BothPages
            (separator_at-Placed (sep_index mid) used max_size h)
            (elim [
              | none ↦ λ _. tt
              | some sep ↦ λ placed. after_offset-BothPages used mid sep h placed
            ]))
    ]

    no_used : ltb btree_page_capacity src.free_space ≡ true → btree_used_bytes src ≡ none
    unfolding btree_used_bytes
    no_used h = ground arith

    some_used :
        ltb btree_page_capacity src.free_space ≡ false
        → btree_used_bytes src ≡ some (btree_page_capacity - src.free_space)
    unfolding btree_used_bytes
    some_used h = ground arith

    -- A split of any page never reads or writes outside the two pages, whatever the page holds, and
    -- what it returns are pages of the right size.
    pub btree_split_page-BothPages : Ensures (btree_split_page src dst dst_id max_size) BothPages
    unfolding btree_split_page choose_split_index after_choice
    btree_split_page-BothPages = elim (Bool-cases (ltb btree_page_capacity src.free_space)) [
      | inl corrupt ↦ rw (no_used corrupt, btree_split_page) tt
      | inr sane ↦
          rw (some_used sane, btree_split_page)
            (elim (Bool-cases (ltb src.key_count (if is_leaf src.page_type then 2 else 1))) [
              | inl few ↦ rw few tt
              | inr enough ↦ rw enough (
                  >>=-Ensures
                    (choose_split_from src.area (btree_page_capacity - src.free_space) src.key_count
                      src.key_count 0 0)
                    (after_choice (btree_page_capacity - src.free_space)) (λ _. Unit) BothPages
                    (choose_split_from_safe src.key_count src.area
                      (btree_page_capacity - src.free_space) src.key_count 0 0 (omega arith))
                    (λ chosen _.
                      after_choice-BothPages (btree_page_capacity - src.free_space) chosen
                        (omega arith)))
            ])
    ]

  -- A page with one entry is never split, whatever its type.
  pub split_single :
      (dst_id max_size : ℕ)
      → src.key_count ≡ 1
      → btree_split_page src dst dst_id max_size ≡ done none
  unfolding btree_split_page choose_split_index choose_split_from btree_used_bytes
  split_single dst_id max_size one = ground (arith, load_head_in src.area 0)
