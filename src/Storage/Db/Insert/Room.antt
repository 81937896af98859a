-- ===== src/Storage/Db/Insert/Room.antt =====
-- An insertion of storage/src/db.c in a well-formed tree, at a leaf that has room for the pair.
use Prim.Native.Nat.{Ordering}
use codo.Prelude.{
  ℕ, ◌+◌, ◌≤◌, ◌≡◌, ◌≢◌, refl, ◌∙◌, ap, sym, Bool, true, false, Option, none, some, List, ◌∷◌, ◌++◌,
  arith, length, take, drop, get_elem?_in, get_elem?-lt, ap,
}
use native.Mathlib.Decide.{dec_lt}
use codo.Storage.Memory.{Run, done}
use codo.Storage.Page.{Page, kv_size, find_key_position, get_kv_pair}
use codo.Storage.Page.Entries.{Entry, Represents, offset_of}
use codo.Storage.Page.Keys.{lex, compare_keys-lex}
use codo.Storage.Page.Search.{Ascending, IsFirstNotBelow}
use codo.Storage.Page.Reads.{get_kv_pair-offset_of}
use codo.Storage.Wal.{WriteResult}
use codo.Storage.Txn.{Transaction, active}
use codo.Storage.Db.{root_page_id}
use codo.Storage.Db.Store.{Db}
use codo.Storage.Db.Delete.{Changed, failure}
use codo.Storage.Db.Tree.{Leaf, contents, contents-append, AllBelow, AllAbove}
use codo.Storage.Db.Values.{load_key-get}
use codo.Storage.Db.Search.{lookup, lookup-at, lookup-below, lookup-append_above}
use codo.Storage.Db.Grow.{btree_max_depth, descend_path_from, descend_path}
use codo.Storage.Db.Insert.{
  last_id, key_exists, bad_lengths, insert_here, insert_at_leaf, insert_from, db_insert,
}
use codo.Storage.Db.Insert.Place.{with_page}
use codo.Storage.Db.Insert.Sorts.{with_entry, with_entry-below, with_entry-middle, lookup-found}

-- The entries of the leaf that owns a key decide what the tree has under it.
pub lookup-around :
    (key : List ℕ) (before : List Leaf) (l : Leaf) (after : List Leaf)
    → AllBelow key (contents before)
    → AllAbove key (contents after)
    → lookup key (contents (before ++ (l ∷ after))) ≡ lookup key l.entries
lookup-around key before l after below above =
    ap (lookup key) (contents-append before (l ∷ after))
    ∙ lookup-below key (contents before) (l.entries ++ contents after) below
    ∙ lookup-append_above key l.entries (contents after) above

pub with_entry-around :
    (e : Entry) (before : List Leaf) (l : Leaf) (after : List Leaf) (page : Page) (r : ℕ)
    → AllBelow e.key (contents before)
    → AllAbove e.key (contents after)
    → IsFirstNotBelow l.entries e.key r
    → lookup e.key l.entries ≡ none
    → contents (before ++ (with_page l page (take r l.entries ++ (e ∷ drop r l.entries)) ∷ after))
      ≡ with_entry e (contents (before ++ (l ∷ after)))
with_entry-around e before l after page r below above first gone =
    contents-append before (with_page l page (take r l.entries ++ (e ∷ drop r l.entries)) ∷ after)
    ∙ ap (contents before ++◌) (with_entry-middle e l.entries (contents after) r first gone above)
    ∙ sym (with_entry-below e (contents before) (l.entries ++ contents after) below)
    ∙ ap (with_entry e) (sym (contents-append before (l ∷ after)))

module _ (key : List ℕ) (page : Page) (es : List Entry) (holds : Represents page es) (r : ℕ)
    (first : IsFirstNotBelow es key r) where
  -- Whether the pair at the search position has the key.
  abbrev Exists : Bool → Type 0
  Exists b =
      (found : Option ℕ) × (get_kv_pair page r ≡ done found) × (key_exists page key found ≡ done b)

  Exists-missing : lookup key es ≡ none → Exists false
  unfolding key_exists get_kv_pair
  Exists-missing gone = elim (dec_lt r (length es)) [
    | yes lt ↦
        let (e, at) = get_elem?_in es r lt in
        let differs : lex key e.key ≢ Ordering.eq = λ eq. lookup-found key es r at eq gone in
        (
          some (offset_of es r),
          get_kv_pair-offset_of page es holds r lt,
          ground (arith, load_key-get page es holds r at, compare_keys-lex key e.key),
        )
    | no end ↦ (none, ground (arith, holds.counted, first.inside), refl)
  ]

  Exists-there : (value : List ℕ) → Ascending es → lookup key es ≡ some value → Exists true
  unfolding key_exists
  Exists-there value sorted there =
      let (e, at, same, is) = lookup-at es key r first value sorted there in
      (
        some (offset_of es r),
        get_kv_pair-offset_of page es holds r (get_elem?-lt es r at),
        ground (arith, load_key-get page es holds r at, compare_keys-lex key e.key),
      )

module _ (checksum : List ℕ → ℕ) (page_checksum : Page → ℕ) (can_grow : Bool) (txn : Transaction)
    (key value : List ℕ) where
  module _ (again : Db → Run Changed) (db : Db) (page_id : ℕ) (page : Page)
      (results : List WriteResult) (es : List Entry) (holds : Represents page es) (r : ℕ)
      (first : IsFirstNotBelow es key r) (found : find_key_position page key ≡ done r) where
    pub at_leaf_exists :
        (old : List ℕ)
        → Ascending es
        → lookup key es ≡ some old
        → insert_at_leaf checksum page_checksum can_grow txn key value again db page_id page results
          ≡ done (failure db results)
    unfolding insert_at_leaf
    at_leaf_exists old sorted there =
        let (o, got, exists) = Exists-there key page es holds r first old sorted there in
        ground (arith, found, got, exists)

    pub at_leaf_room :
        lookup key es ≡ none
        → kv_size + length key + length value ≤ page.free_space
        → insert_at_leaf checksum page_checksum can_grow txn key value again db page_id page results
          ≡ insert_here checksum page_checksum can_grow txn key value db page_id page r results
    unfolding insert_at_leaf
    at_leaf_room gone room =
        let (o, got, exists) = Exists-missing key page es holds r first gone in
        ground (arith, found, got, exists)

  pub at_the_leaf :
      (db : Db) (results : List WriteResult) (ids : List ℕ) (page_id : ℕ) (page : Page)
      → txn.state ≡ active
      → bad_lengths key value ≡ false
      → descend_path_from btree_max_depth db.pages key root_page_id ≡ done (some ids)
      → last_id ids ≡ some page_id
      → db.pages page_id ≡ some page
      → db_insert checksum page_checksum can_grow txn key value db results
        ≡ insert_at_leaf checksum page_checksum can_grow txn key value
            (λ db'. insert_from checksum page_checksum can_grow txn key value 31 db' results)
            db
            page_id
            page
            results
  unfolding db_insert insert_from descend_path
  at_the_leaf db results ids page_id page running lengths path last there = ground arith
