-- ===== src/Storage/Db/Removal/InTree.antt =====
-- A deletion of storage/src/db.c in a well-formed tree takes the pair out of the tree's list.
use Prim.Native.Nat.{Ordering}
use codo.Prelude.{
  ℕ, ◌≤◌, ◌<◌, ◌≡◌, refl, ◌∙◌, ap, ap₂, sym, subst, Option, none, some, List, [], ◌∷◌, ◌++◌, arith,
  map, length, get_elem?, get_elem?_in, get_elem?-lt, Option-cases, inl, inr, ◌⊎◌,
}
use codo.Storage.Memory.{done, Ensures}
use codo.Storage.Page.{Page, find_key_position, delete_kv_pair}
use codo.Storage.Page.Entries.{Entry, Represents}
use codo.Storage.Page.Keys.{lex}
use codo.Storage.Page.Search.{Ascending, IsFirstNotBelow, find_key_position-IsFirstNotBelow}
use codo.Storage.Page.Update.{delete_kv_pair-get}
use codo.Storage.Wal.{WriteResult, wal_delete}
use codo.Storage.Txn.{Transaction, active}
use codo.Storage.Db.{Descent, root_page_id, max_key_size, descend_from, descend_to_leaf, at_leaf}
use codo.Storage.Db.Store.{Db, put_page, stamped, store_page, log_change}
use codo.Storage.Db.Delete.{
  max_value_size, Changed, success, failure, waiting, delete_payload, delete_leaf, db_delete,
}
use codo.Storage.Db.Tree.{Leaf, contents, contents-append, All, Tree}
use codo.Storage.Db.Descend.{Reached, descend_from-Reached, result_of}
use codo.Storage.Db.Values.{All-at}
use codo.Storage.Db.Search.{lookup, lookup-at, lookup-below, lookup-append_above}
use codo.Storage.Db.Chain.{AllLeaves, Linked, Tree-AllLeaves}
use codo.Storage.Db.Erase.{
  erase_at, without, All-erase_at, Ascending-erase_at, without-append, without-below, without-above,
  without-erase_at,
}
use codo.Storage.Db.Frame.{changed, changed-Tree}
use codo.Storage.Db.Links.{contents-changed, changed-Linked}
use codo.Storage.Db.Removal.{Stamped, stamped-Stamped, Stamped-Represents, log_change-pages}
use codo.Storage.Db.Removal.OnLeaf.{delete_leaf-missing, delete_leaf-logged}

All-middle : (P : Entry → Type 0) (es fs gs : List Entry) → All P (es ++ (fs ++ gs)) → All P fs
All-middle P [] [] gs h = tt
All-middle P [] (f ∷ fs) gs h = (h.0, All-middle P [] fs gs h.1)
All-middle P (e ∷ es) fs gs h = All-middle P es fs gs h.1

module _ (checksum : List ℕ → ℕ) (page_checksum : Page → ℕ) (h : ℕ) (txn : Transaction)
    (key : List ℕ) (results : List WriteResult) where
  -- The record of the deletion on a page, as the log takes it.
  abbrev pub record_deletion : Db → ℕ → List ℕ → Option (Db × List WriteResult)
  record_deletion db page_id value =
      log_change checksum db txn.txn_id wal_delete page_id (delete_payload key value) results

  -- The state after the deletion: a well-formed, linked tree without the pair, and the log with
  -- its record.
  pub record Removed (db : Db) (leaves : List Leaf) (value : List ℕ) (db' : Db)
      (rest : List WriteResult) : Type 0 where
    pub page_id : ℕ
    pub logged : Db
    pub log : record_deletion db page_id value ≡ some (logged, rest)
    pub engine : db'.engine ≡ logged.engine
    pub left : List Leaf
    pub tree : Tree db'.pages h root_page_id left
    pub linked : Linked left
    pub contents_are : contents left ≡ without key (contents leaves)

  -- How a deletion ends, by what the tree has under the key.
  abbrev pub Deletes : Db → List Leaf → Option (List ℕ) → Changed → Type 0
  Deletes db leaves none c = c ≡ failure db results
  Deletes db leaves (some value) c =
      ((db' : Db) × (rest : List WriteResult) × (c ≡ success db' rest)
        × Removed db leaves value db' rest)
      ⊎ ((c ≡ waiting) × (page_id : ℕ) × (record_deletion db page_id value ≡ none))

  module _ (db : Db) (leaves : List Leaf) (tree : Tree db.pages h root_page_id leaves)
      (linked : Linked leaves) (short : length key ≤ max_key_size)
      (small : All (λ e. length e.value ≤ max_value_size) (contents leaves)) (d : Descent)
      (reached : Reached db.pages key leaves d) (r : ℕ)
      (first : IsFirstNotBelow reached.leaf.entries key r) where
    abbrev leaf : Leaf
    leaf = reached.leaf

    lookup-leaf : lookup key (contents leaves) ≡ lookup key leaf.entries
    lookup-leaf =
        ap (λ ls. lookup key (contents ls)) reached.around
        ∙ ap (lookup key) (contents-append reached.before (leaf ∷ reached.after))
        ∙ lookup-below key (contents reached.before) (leaf.entries ++ contents reached.after)
            reached.below
        ∙ lookup-append_above key leaf.entries (contents reached.after) reached.above

    -- The pair is gone from the contents.
    contents-erased :
        (e : Entry) (page' : Page)
        → get_elem? leaf.entries r ≡ some e
        → lex key e.key ≡ Ordering.eq
        → contents (map (changed leaf.id page' (erase_at r)) leaves) ≡ without key (contents leaves)
    contents-erased e page' at same =
        let all = Tree-AllLeaves db.pages h root_page_id leaves tree in
        let around = reached.around in
        ap (λ ls. contents (map (changed leaf.id page' (erase_at r)) ls)) around
        ∙ contents-changed db.pages page' (erase_at r) reached.before leaf reached.after
            (subst (AllLeaves db.pages) around all) (subst Linked around linked)
        ∙ sym (
            ap (λ ls. without key (contents ls)) around
            ∙ ap (without key) (contents-append reached.before (leaf ∷ reached.after))
            ∙ without-append key (contents reached.before) (leaf.entries ++ contents reached.after)
            ∙ ap₂ ◌++◌ (without-below key (contents reached.before) reached.below) (
                without-append key leaf.entries (contents reached.after)
                ∙ ap₂ ◌++◌
                    (without-erase_at leaf.entries key r e first reached.is_leaf.sorted at same)
                    (without-above key (contents reached.after) reached.above)))

    small-leaf : All (λ e. length e.value ≤ max_value_size) leaf.entries
    small-leaf = All-middle _ (contents reached.before) leaf.entries (contents reached.after) (
        subst (All _)
          (ap contents reached.around ∙ contents-append reached.before (leaf ∷ reached.after))
          small)

    -- Whatever entries the page represents, the deletion takes out the one at the position.
    kept :
        (e : Entry) (page' q : Page)
        → get_elem? leaf.entries r ≡ some e
        → delete_kv_pair leaf.page r ≡ done (some page')
        → Stamped page' q
        → (es : List Entry) → Represents leaf.page es
        → Ascending es
        → Represents q (erase_at r es) × Ascending (erase_at r es)
    kept e page' q at gone stamp es holds sorted =
        let lt : r < length es =
          omega
            (arith, holds.counted, reached.is_leaf.holds.counted, get_elem?-lt leaf.entries r at) in
        let (f, there) = get_elem?_in es r lt in
        let (p, gives, erased, kind, next) = delete_kv_pair-get leaf.page es holds r there in
        let same : p ≡ page' = cc (gives, gone) in
        (
          Stamped-Represents page' q (erase_at r es) stamp
              (subst (λ x. Represents x (erase_at r es)) same erased),
          Ascending-erase_at r es sorted,
        )

    -- The store of the page without the pair.
    removed :
        (e : Entry) (page' : Page) (logged : Db) (rest : List WriteResult)
        → get_elem? leaf.entries r ≡ some e
        → lex key e.key ≡ Ordering.eq
        → delete_kv_pair leaf.page r ≡ done (some page')
        → page'.page_type ≡ leaf.page.page_type
        → page'.next_page_id ≡ leaf.page.next_page_id
        → record_deletion db leaf.id e.value ≡ some (logged, rest)
        → Removed db leaves e.value (store_page page_checksum leaf.id page' logged) rest
    unfolding store_page
    removed e page' logged rest at same gone type next log =
        let q = stamped page_checksum logged page' in
        let stamp = stamped-Stamped page_checksum logged page' in
        let is_leaf = reached.is_leaf in
        let all = Tree-AllLeaves db.pages h root_page_id leaves tree in
        let pages_same =
          log_change-pages checksum db txn.txn_id wal_delete leaf.id (delete_payload key e.value)
            results logged rest log in
        let changed_tree =
          changed-Tree db.pages leaf.id leaf.page q (erase_at r) is_leaf.there is_leaf.kind
            (stamp.same_type ∙ type ∙ is_leaf.kind) (kept e page' q at gone stamp)
            (λ P. All-erase_at P r) h root_page_id leaves tree in
        record {
          page_id = leaf.id;
          logged = logged;
          log = log;
          engine = refl;
          left = map (changed leaf.id q (erase_at r)) leaves;
          tree =
              subst
                (λ pages.
                  Tree (put_page leaf.id q pages) h root_page_id
                    (map (changed leaf.id q (erase_at r)) leaves))
                (sym pages_same) changed_tree;
          linked =
              changed-Linked db.pages leaf.id leaf.page q (erase_at r) is_leaf.there
                (stamp.same_next ∙ next) leaves all linked;
          contents_are = contents-erased e q at same;
        }

    -- The deletion on the leaf.
    pub delete_leaf-Deletes :
        find_key_position leaf.page key ≡ done r
        → Ensures
            (delete_leaf checksum page_checksum db txn leaf.id leaf.page key results)
            (Deletes db leaves (lookup key (contents leaves)))
    delete_leaf-Deletes found = elim (Option-cases (lookup key leaf.entries)) [
      | inl absent ↦
          rw
            (
              lookup-leaf,
              absent,
              delete_leaf-missing checksum page_checksum db txn leaf.id leaf.page leaf.entries key
                  results reached.is_leaf.holds reached.is_leaf.sorted r first found absent,
            )
            refl
      | inr (value, there) ↦
          let (e, at, same, value_is) =
            lookup-at leaf.entries key r first value reached.is_leaf.sorted there in
          let (page', gone, erased, type, next) =
            delete_kv_pair-get leaf.page leaf.entries reached.is_leaf.holds r at in
          let ran =
            delete_leaf-logged checksum page_checksum db txn leaf.id leaf.page leaf.entries key
              results reached.is_leaf.holds reached.is_leaf.sorted r first found e at same short
              (All-at _ leaf.entries r small-leaf at) page' gone in
          rw (lookup-leaf, there, sym value_is, ran)
            (elim (Option-cases (record_deletion db leaf.id e.value)) [
              | inl stuck ↦ rw stuck (inr (refl, leaf.id, stuck))
              | inr ((logged, rest), log) ↦ rw log (
                  inl (
                    store_page page_checksum leaf.id page' logged,
                    rest,
                    refl,
                    removed e page' logged rest at same gone type next log,
                  ))
            ])
    ]

at_the_leaf :
    (checksum : List ℕ → ℕ) (page_checksum : Page → ℕ) (fuel : ℕ) (db : Db) (txn : Transaction)
    (key : List ℕ) (results : List WriteResult) (id : ℕ) (page : Page)
    → txn.state ≡ active
    → descend_from fuel db.pages key root_page_id ≡ done (at_leaf id page)
    → db_delete checksum page_checksum fuel db txn key results
      ≡ delete_leaf checksum page_checksum db txn id page key results
unfolding db_delete descend_to_leaf
at_the_leaf checksum page_checksum fuel db txn key results id page running went = ground arith

-- In an active transaction, with fuel for the height of a well-formed tree whose leaves are
-- linked, a deletion with a key of at most 256 bytes, in a tree whose values have at most 1024,
-- does not fault. If no pair has the key it returns -1 and changes nothing. Otherwise the record
-- goes to the log, whose result is ignored; when that call has returned, the deletion returns 0
-- with a well-formed tree whose leaves are linked and whose pairs are those with another key;
-- while write(2) has not returned, it waits.
pub db_delete-Deletes :
    (checksum : List ℕ → ℕ) (page_checksum : Page → ℕ) (h fuel : ℕ) (db : Db) (txn : Transaction)
    (leaves : List Leaf) (key : List ℕ) (results : List WriteResult)
    → txn.state ≡ active
    → h < fuel
    → Tree db.pages h root_page_id leaves
    → Linked leaves
    → length key ≤ max_key_size
    → All (λ e. length e.value ≤ max_value_size) (contents leaves)
    → Ensures
        (db_delete checksum page_checksum fuel db txn key results)
        (Deletes checksum page_checksum h txn key results db leaves (lookup key (contents leaves)))
db_delete-Deletes checksum page_checksum h fuel db txn leaves key results running enough tree linked
      short small =
    let (d, went, reached) =
      result_of (descend_from fuel db.pages key root_page_id) (Reached db.pages key leaves)
        (descend_from-Reached db.pages key h fuel root_page_id leaves enough tree) in
    let leaf = reached.leaf in
    let (r, found, first) =
      result_of (find_key_position leaf.page key) (IsFirstNotBelow leaf.entries key) (
        find_key_position-IsFirstNotBelow leaf.page leaf.entries reached.is_leaf.holds
          reached.is_leaf.sorted key) in
    rw
      (at_the_leaf checksum page_checksum fuel db txn key results leaf.id leaf.page running
        (went ∙ ap done reached.ends))
      (delete_leaf-Deletes checksum page_checksum h txn key results db leaves tree linked short
        small d reached r first found)
