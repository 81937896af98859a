-- ===== src/Storage/Db/Insert/Growth.antt =====
-- Splits of storage/src/db.c in pages that may hold anything: they stay inside them.
use codo.Prelude.{
  ℕ, zero, suc, Bool, Option, none, some, List, [], ◌==◌, Bool-cases, Option-cases, inl, inr,
}
use codo.Storage.Memory.{Ensures, >>=-Ensures}
use codo.Storage.Page.{Page, insert_kv_pair}
use codo.Storage.Page.Safety.{HasArea, KeepsArea, insert_kv_pair-KeepsArea}
use codo.Storage.Page.Split.{SplitResult, btree_split_page}
use codo.Storage.Page.Split.Bounds.{BothPages, btree_split_page-BothPages}
use codo.Storage.Db.{root_page_id, max_key_size}
use codo.Storage.Db.Store.{Db, put_page, allocate_page, store_page}
use codo.Storage.Db.Grow.{
  btree_max_depth, descend_path_from, descend_path, blank_page, parent_on, Pointer, find_pointer,
  insert_position, repoint, Placed, ended, full, place_at, place_separator, split_target, halved,
  halve, insert_separator, btree_split_node, node_beside,
}
use codo.Storage.Db.Insert.Safety.{
  Sized, Sized-put_page, Sized-store_page, allocate_page-pages, deallocate_page-pages,
  zeros-HasArea, descend_path_from_safe, find_pointer_safe, StepSized, grow_root-Sized,
  repoint-Sized,
}

abbrev PlacedSized : Placed → Type 0
PlacedSized (ended db ok) = Sized db.pages
PlacedSized (full id) = Unit

module _ (page_checksum : Page → ℕ) (can_grow : Bool) where
  place_at-Sized :
      (node_id : ℕ) (sep : List ℕ) (right_id parent_id : ℕ) (parent : Page) (old : Pointer)
      (db : Db) (position : Option ℕ)
      → Sized db.pages
      → HasArea parent
      → Ensures
          (place_at page_checksum can_grow node_id sep right_id parent_id parent old db position)
          PlacedSized
  unfolding place_at
  place_at-Sized node_id sep right_id parent_id parent old db none sized size = sized
  place_at-Sized node_id sep right_id parent_id parent old db (some position) sized size =
      >>=-Ensures (insert_kv_pair parent position sep [] node_id) _ KeepsArea PlacedSized
        (insert_kv_pair-KeepsArea parent size position sep [] node_id)
        (elim [
          | none ↦ λ _. tt
          | some page ↦ λ here.
              >>=-Ensures (repoint page_checksum parent_id right_id page old db) _ StepSized
                PlacedSized (repoint-Sized page_checksum parent_id right_id page old db sized here)
                (λ r h. h)
        ])

  place_separator-Sized :
      (node_id : ℕ) (sep : List ℕ) (right_id : ℕ) (db : Db)
      → Sized db.pages
      → Ensures (place_separator page_checksum can_grow node_id sep right_id db) PlacedSized
  unfolding place_separator descend_path
  place_separator-Sized node_id sep right_id db sized =
      >>=-Ensures (descend_path_from btree_max_depth db.pages sep root_page_id) _ (λ _. Unit)
        PlacedSized (descend_path_from_safe btree_max_depth db.pages sep root_page_id sized)
        (elim [
          | none ↦ λ _. sized
          | some ids ↦ λ _. elim (Option-cases (parent_on node_id ids)) [
            | inl gone ↦ rw gone sized
            | inr (parent_id, on) ↦ rw on (elim (Option-cases (db.pages parent_id)) [
              | inl gone ↦ rw gone sized
              | inr (parent, there) ↦ rw there (
                  >>=-Ensures (find_pointer parent node_id parent.key_count 0) _ (λ _. Unit)
                    PlacedSized
                    (find_pointer_safe parent node_id parent.key_count 0
                      (sized parent_id parent there))
                    (λ old _.
                      place_at-Sized node_id sep right_id parent_id parent old db
                        (insert_position parent node_id old) sized (sized parent_id parent there)))
            ])
          ]
        ])

  split_target-Sized :
      (node_id : ℕ) (db : Db)
      → Sized db.pages
      → Sized (split_target page_checksum can_grow node_id db).0.pages
  unfolding split_target
  split_target-Sized node_id db sized = elim (Bool-cases (node_id == root_page_id)) [
    | inl root ↦ rw root (grow_root-Sized page_checksum db sized)
    | inr other ↦ rw other sized
  ]

  halved-Sized :
      (node_id right_id : ℕ) (db : Db) (split : Option SplitResult)
      → Sized db.pages
      → BothPages split
      → Sized (halved page_checksum can_grow node_id right_id db split).0.pages
  unfolding halved
  halved-Sized node_id right_id db none sized both =
      rw
        (deallocate_page-pages can_grow right_id
          (record db { pages = put_page right_id blank_page db.pages }))
        (Sized-put_page db.pages right_id blank_page sized zeros-HasArea)
  halved-Sized node_id right_id db (some split) sized both =
      Sized-store_page page_checksum right_id split.right
        (store_page page_checksum node_id split.left db)
        (Sized-store_page page_checksum node_id split.left db sized both.0) both.1

  node_beside-HasArea :
      (node_id right_id : ℕ) (node : Page)
      → HasArea node
      → HasArea (node_beside node_id right_id node)
  node_beside-HasArea node_id right_id node size = elim (Bool-cases (node_id == right_id)) [
    | inl one ↦ rw one zeros-HasArea
    | inr two ↦ rw two size
  ]

  halve-Sized :
      (node_id : ℕ) (db : Db)
      → Sized db.pages
      → Ensures (halve page_checksum can_grow node_id db) (λ r. Sized r.0.pages)
  unfolding halve
  halve-Sized node_id db sized =
      let (db', right_id) = allocate_page db in
      let sized' : Sized db'.pages = rw (allocate_page-pages db) sized in
      elim (Bool-cases (right_id == 0)) [
        | inl none_left ↦ rw (none_left, halve) sized'
        | inr id ↦
            rw (id, halve)
              (elim (Option-cases (db'.pages node_id)) [
                | inl gone ↦ rw (gone, halve) sized'
                | inr (node, there) ↦
                    rw (there, halve)
                      (elim (Option-cases (db'.pages right_id)) [
                        | inl gone ↦ rw (gone, halve) sized'
                        | inr (right, there') ↦
                            rw (there', halve)
                              (>>=-Ensures
                                (btree_split_page (node_beside node_id right_id node) blank_page
                                  right_id max_key_size)
                                _ BothPages (λ r. Sized r.0.pages)
                                (btree_split_page-BothPages (node_beside node_id right_id node)
                                  blank_page
                                  (node_beside-HasArea node_id right_id node
                                    (sized' node_id node there))
                                  zeros-HasArea right_id max_key_size)
                                (λ split both. halved-Sized node_id right_id db' split sized' both))
                      ])
              ])
      ]

  mutual
    unfolding insert_separator btree_split_node

    pub insert_separator-Sized :
        (depth node_id : ℕ) (sep : List ℕ) (right_id : ℕ) (db : Db)
        → Sized db.pages
        → Ensures (insert_separator page_checksum can_grow depth node_id sep right_id db) StepSized
    insert_separator-Sized zero node_id sep right_id db sized = sized
    insert_separator-Sized (suc depth) node_id sep right_id db sized =
        >>=-Ensures (place_separator page_checksum can_grow node_id sep right_id db) _ PlacedSized
          StepSized (place_separator-Sized node_id sep right_id db sized)
          (elim [
            | ended db' ok ↦ λ h. h
            | full parent_id ↦ λ _.
                >>=-Ensures (btree_split_node page_checksum can_grow depth parent_id db) _ StepSized
                  StepSized (btree_split_node-Sized depth parent_id db sized)
                  (λ r h. elim (Bool-cases (r.1)) [
                    | inl ok ↦ rw ok (insert_separator-Sized depth node_id sep right_id r.0 h)
                    | inr failed ↦ rw failed h
                  ])
          ])

    pub btree_split_node-Sized :
        (depth node_id : ℕ) (db : Db)
        → Sized db.pages
        → Ensures (btree_split_node page_checksum can_grow depth node_id db) StepSized
    btree_split_node-Sized zero node_id db sized = sized
    btree_split_node-Sized (suc depth) node_id db sized =
        let (db', target) = split_target page_checksum can_grow node_id db in
        let sized' = split_target-Sized node_id db sized in
        elim (Option-cases target) [
          | inl gone ↦ rw (gone, btree_split_node) sized'
          | inr (id, there) ↦
              rw (there, btree_split_node)
                (>>=-Ensures (halve page_checksum can_grow id db') _ (λ r. Sized r.0.pages)
                  StepSized (halve-Sized id db' sized')
                  (λ r h. elim (Option-cases (r.1)) [
                    | inl failed ↦ rw failed h
                    | inr ((sep, right_id), split) ↦
                        rw split (insert_separator-Sized depth id sep right_id r.0 h)
                  ]))
        ]
