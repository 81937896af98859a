-- ===== src/Tests/Trees.antt =====
-- storage/src/db.c at a tree with a root and two leaves.
use Prim.Native.Nat.{Ordering}
use codo.Prelude.{
  ℕ, zero, suc, ◌+◌, ◌≤◌, ◌≡◌, refl, Bool, true, Option, none, some, List, [], ◌∷◌, ◌++◌, arith,
  length, replicate, Bool-cases, inl, inr, subst, length-append, length-replicate, ◌==◌,
  if◌then◌else◌,
}
use codo.Storage.Memory.{done, load_bytes}
use codo.Storage.Page.{
  Page, PageType, encode_head, decode_head, btree_page_capacity, find_key_position, find_from,
  key_at, get_kv_pair, get_kv_pair_from, load_key, load_head, compare_keys, memcmp,
}
use codo.Storage.Page.Safety.{HasArea}
use codo.Storage.Page.Entries.{Entry, Fits, AllFit, Represents, encode_all, encode_entry}
use codo.Storage.Page.Keys.{lex}
use codo.Storage.Page.Search.{Ascending}
use codo.Storage.Memory.{Ensures}
use codo.Storage.Txn.{active, Transaction, Engine}
use codo.Storage.Db.{
  root_page_id, descend_to_leaf, descend_from, child_toward, child_or_next, at_leaf, db_search,
  db_scan_prefix, complete,
}
use codo.Storage.Db.Tree.{Leaf, IsLeaf, contents, Tree}
use codo.Storage.Db.Search.{lookup, answer, db_search-lookup}
use codo.Storage.Db.Store.{Db}
use codo.Storage.Db.Delete.{db_delete}
use codo.Storage.Db.Removal.InTree.{Deletes, db_delete-Deletes}
use codo.Storage.Db.Insert.{db_insert}
use codo.Storage.Db.Insert.InTree.{Inserts, db_insert-Inserts}
use codo.Storage.Db.Insert.Safety.{Sized}
use codo.Storage.Db.Insert.Whole.{ChangedSized, db_insert-Sized}
use codo.Storage.Db.Prefix.{with_prefix}
use codo.Storage.Db.Chain.{Linked}
use codo.Storage.Db.Scan.{visit_until, db_scan_prefix-visits}

abbrev pair : ℕ → ℕ → Entry
pair first second = record { key = first ∷ second ∷ []; value = second ∷ []; child = 0 }

abbrev separator : ℕ → ℕ → Entry
separator first child = record { key = first ∷ []; value = []; child = child }

abbrev page_of : PageType → ℕ → List Entry → ℕ → ℕ → Page
page_of page_type page_id es room next = record {
  page_id = page_id;
  page_type = page_type;
  key_count = length es;
  free_space = room;
  next_page_id = next;
  prev_page_id = 0;
  lsn = 0;
  checksum = 0;
  area = encode_all es ++ replicate room 0;
}

page_of-Represents :
    (page_type : PageType) (page_id : ℕ) (es : List Entry) (room next : ℕ)
    → length (encode_all es) + room ≡ btree_page_capacity
    → AllFit es
    → Represents (page_of page_type page_id es room next) es
page_of-Represents page_type page_id es room next full fit = record {
  rest = replicate room 0;
  packed = refl;
  filled =
      omega
        (arith, length-append (encode_all es) (replicate room 0), length-replicate {A = ℕ} room 0);
  counted = refl;
  free = omega (arith, length-replicate {A = ℕ} room 0);
  fit = fit;
}

abbrev left_entries : List Entry
left_entries = pair 97 97 ∷ pair 97 98 ∷ []

abbrev right_entries : List Entry
right_entries = pair 97 120 ∷ pair 98 97 ∷ []

abbrev root_entries : List Entry
root_entries = separator 97 2 ∷ []

small-Fits : (first second : ℕ) → Fits (pair first second)
small-Fits first second = record {
  key_fits = omega arith;
  value_fits = omega arith;
  child_fits = omega arith;
}

abbrev left_leaf : Leaf
left_leaf = record {
  id = 2;
  page = page_of PageType.leaf 2 left_entries 4002 3;
  entries = left_entries;
}

abbrev right_leaf : Leaf
right_leaf = record {
  id = 3;
  page = page_of PageType.leaf 3 right_entries 4002 0;
  entries = right_entries;
}

-- "ab" is the highest key on the left.
abbrev root_separator : Entry
root_separator = record { key = 97 ∷ 98 ∷ []; value = []; child = 2 }

abbrev root_page : Page
root_page = page_of PageType.internal 1 (root_separator ∷ []) 4014 3

pages : ℕ → Option Page
pages id =
    if id == 1
    then some root_page
    else (if id == 2 then some left_leaf.page else (if id == 3 then some right_leaf.page else none))

two-Ascending :
    (a b c d : ℕ)
    → lex (a ∷ b ∷ []) (c ∷ d ∷ []) ≡ Ordering.lt
    → Ascending (pair a b ∷ pair c d ∷ [])
two-Ascending a b c d lt zero zero e f h he hf = absurd (omega arith)
two-Ascending a b c d lt zero (suc zero) e f h he hf = ground arith
two-Ascending a b c d lt zero (suc (suc j)) e f h he hf = absurd (ground arith)
two-Ascending a b c d lt (suc zero) j e f h he hf = ground arith
two-Ascending a b c d lt (suc (suc i)) j e f h he hf = absurd (ground arith)

one-Ascending : Ascending (root_separator ∷ [])
one-Ascending zero zero e f h he hf = absurd (omega arith)
one-Ascending zero (suc j) e f h he hf = absurd (ground arith)
one-Ascending (suc i) j e f h he hf = absurd (ground arith)

left-IsLeaf : IsLeaf pages left_leaf
unfolding pages encode_all encode_entry encode_head lex
left-IsLeaf = record {
  id_set = λ e. omega arith;
  there = refl;
  kind = refl;
  holds =
      page_of-Represents PageType.leaf 2 left_entries 4002 3 refl
        (small-Fits 97 97, (small-Fits 97 98, tt));
  sorted = two-Ascending 97 97 97 98 refl;
}

right-IsLeaf : IsLeaf pages right_leaf
unfolding pages encode_all encode_entry encode_head lex
right-IsLeaf = record {
  id_set = λ e. omega arith;
  there = refl;
  kind = refl;
  holds =
      page_of-Represents PageType.leaf 3 right_entries 4002 0 refl
        (small-Fits 97 120, (small-Fits 98 97, tt));
  sorted = two-Ascending 97 120 98 97 refl;
}

abbrev both_leaves : List Leaf
both_leaves = left_leaf ∷ right_leaf ∷ []

separator-Fits : Fits root_separator
separator-Fits = record {
  key_fits = omega arith;
  value_fits = omega arith;
  child_fits = omega arith;
}

root-Tree : Tree pages 1 root_page_id both_leaves
unfolding pages encode_all encode_entry encode_head lex
root-Tree = record {
  page = root_page;
  seps = root_separator ∷ [];
  parts = (left_leaf ∷ []) ∷ [];
  last = right_leaf ∷ [];
  id_set = λ e. omega arith;
  there = refl;
  kind = refl;
  holds =
      page_of-Represents PageType.internal 1 (root_separator ∷ []) 4014 3 refl (separator-Fits, tt);
  sorted = one-Ascending;
  children = ((left_leaf, refl, refl, left-IsLeaf), tt);
  rightmost = (right_leaf, refl, refl, right-IsLeaf);
  routed = (((λ h. cc), ((λ h. cc), tt)), (refl, (refl, tt)), tt);
  leaves_are = refl;
}

db_search-lookup_example :
    db_search 32 pages active (97 ∷ 120 ∷ []) 100
    ≡ done (answer 100 (lookup (97 ∷ 120 ∷ []) (contents both_leaves)))
db_search-lookup_example =
    db_search-lookup pages 1 32 both_leaves (97 ∷ 120 ∷ []) 100 (omega arith) root-Tree

-- A callback that counts the pairs and stops at the second.
abbrev count_two : ℕ → List ℕ → List ℕ → ℕ × Bool
count_two n key value = (n + 1, n == 1)

both-Linked : Linked both_leaves
both-Linked = (refl, (λ h. absurd (omega arith)), refl)

db_scan_prefix-visits_example :
    db_scan_prefix count_two (97 ∷ []) 32 100 pages active 0
    ≡ done (complete (visit_until count_two 0 (with_prefix (97 ∷ []) (contents both_leaves))))
db_scan_prefix-visits_example =
    db_scan_prefix-visits count_two (97 ∷ []) pages 1 32 100 both_leaves 0 (omega arith)
      (omega arith) (omega arith) root-Tree both-Linked

abbrev no_checksum : List ℕ → ℕ
no_checksum bytes = 0

abbrev no_page_checksum : Page → ℕ
no_page_checksum page = 0

abbrev txn : Transaction
txn = record { txn_id = 2; state = active; start_lsn = 1; commit_lsn = 0 }

abbrev engine : Engine
engine = record {
  wal = record { buffer = []; file = []; next_lsn = 2; records_written = 1 };
  enable_wal = true;
  active_transactions = 2 ∷ [];
  next_txn_id = 3;
  transactions_committed = 0;
  transactions_aborted = 0;
}

abbrev db : Db
db = record {
  pages = pages;
  free_pages = [];
  free_page_capacity = 0;
  next_page_id = 4;
  engine = engine;
  enable_checksums = true;
}

db_delete-Deletes_example :
    Ensures (db_delete no_checksum no_page_checksum 32 db txn (97 ∷ 98 ∷ []) []) (
      Deletes no_checksum no_page_checksum 1 txn
        (97 ∷ 98 ∷ [])
        []
        db
        both_leaves
        (lookup (97 ∷ 98 ∷ []) (contents both_leaves)))
db_delete-Deletes_example =
    db_delete-Deletes no_checksum no_page_checksum 1 32 db txn both_leaves (97 ∷ 98 ∷ []) [] refl
      (omega arith) root-Tree both-Linked (omega arith)
      (omega arith, (omega arith, (omega arith, (omega arith, tt))))

root-HasArea : HasArea root_page
unfolding encode_all encode_entry encode_head
root-HasArea =
    let r =
      page_of-Represents PageType.internal 1 (root_separator ∷ []) 4014 3 refl
        (separator-Fits, tt) in
    r.filled

-- The pages of the example have areas of the right size.
pages-Sized : Sized pages
unfolding pages
pages-Sized id p at = elim (Bool-cases (id == 1)) [
  | inl root ↦
      let same : root_page ≡ p = ground (arith, root, at) in subst HasArea same root-HasArea
  | inr other ↦ elim (Bool-cases (id == 2)) [
    | inl left ↦
        let same : left_leaf.page ≡ p = ground (arith, other, left, at) in
        subst HasArea same left-IsLeaf.holds.filled
    | inr other' ↦ elim (Bool-cases (id == 3)) [
      | inl right ↦
          let same : right_leaf.page ≡ p = ground (arith, other, other', right, at) in
          subst HasArea same right-IsLeaf.holds.filled
      | inr beyond ↦ absurd (ground (arith, other, other', beyond, at))
    ]
  ]
]

db_insert-Sized_example :
    Ensures
      (db_insert no_checksum no_page_checksum true txn (97 ∷ 99 ∷ []) (1 ∷ []) db [])
      ChangedSized
db_insert-Sized_example =
    db_insert-Sized no_checksum no_page_checksum true txn (97 ∷ 99 ∷ []) (1 ∷ []) db [] pages-Sized

-- The leaf for the key "ac".
to_right : descend_to_leaf 32 pages (97 ∷ 99 ∷ []) ≡ done (at_leaf 3 right_leaf.page)
unfolding descend_to_leaf descend_from child_toward child_or_next pages find_key_position find_from
    key_at get_kv_pair get_kv_pair_from load_key load_head load_bytes decode_head compare_keys
    memcmp encode_all encode_entry encode_head
to_right = refl

room_for_ac :
    (id : ℕ) (page : Page)
    → descend_to_leaf 32 pages (97 ∷ 99 ∷ []) ≡ done (at_leaf id page)
    → 11 ≤ page.free_space
room_for_ac id page went =
    let same : right_leaf.page ≡ page = cc (to_right, went) in
    subst (λ (p : Page). 11 ≤ p.free_space) same (omega arith)

db_insert-Inserts_example :
    Ensures (db_insert no_checksum no_page_checksum true txn (97 ∷ 99 ∷ []) (1 ∷ []) db []) (
      Inserts no_checksum no_page_checksum true 1 txn
        (97 ∷ 99 ∷ [])
        (1 ∷ [])
        []
        db
        both_leaves
        (lookup (97 ∷ 99 ∷ []) (contents both_leaves)))
db_insert-Inserts_example =
    db_insert-Inserts no_checksum no_page_checksum true 1 db txn both_leaves (97 ∷ 99 ∷ []) (1 ∷ [])
      [] refl (omega arith) (omega arith) (omega arith) (omega arith) root-Tree both-Linked
      room_for_ac
