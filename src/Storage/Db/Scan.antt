-- ===== src/Storage/Db/Scan.antt =====
-- The scans of storage/src/db.c in a well-formed tree visit the entries that extend the prefix.
use Prim.Native.Nat.{Ordering}
use codo.Prelude.{
  ℕ, zero, suc, ◌+◌, ◌-◌, ◌≤◌, ◌<◌, ◌≡◌, ◌≢◌, refl, ◌∙◌, ap, sym, subst, Bool, true, false,
  Bool-cases, inl, inr, Option, some, List, [], ◌∷◌, ◌++◌, arith, length, take, drop, get_elem?,
  get_elem?_in, append_nil, take-append-drop, length-append,
}
use mathlib.Core.List.{append_assoc}
use codo.Storage.Memory.{done}
use codo.Storage.Page.{Page, find_key_position}
use codo.Storage.Page.Entries.{Entry, Represents}
use codo.Storage.Page.Keys.{lex, lex-lt→gt}
use codo.Storage.Page.Search.{IsFirstNotBelow, find_key_position-IsFirstNotBelow}
use codo.Storage.Page.Reads.{get_kv_pair-offset_of}
use codo.Storage.Txn.{active}
use codo.Storage.Db.{
  root_page_id, max_key_size, past_prefix, complete, scan_entries, scan_leaves, db_scan_prefix,
  descend_to_leaf, descend_from, at_leaf,
}
use codo.Storage.Db.Tree.{
  Leaf, IsLeaf, contents, contents-append, All, AllAbove, AllBelow, All-append, All-mono, Tree,
}
use codo.Storage.Db.Descend.{Reached, descend_from-Reached, result_of}
use codo.Storage.Db.Values.{load_key-get, load_value-get, get_elem?-drop, All-get}
use codo.Storage.Db.Search.{below_first}
use codo.Storage.Db.Prefix.{
  extends, past_prefix-extends, extends_past, with_prefix, with_prefix_none, with_prefix-below,
}
use codo.Storage.Db.Chain.{Sorted, AllLeaves, Tree-AllLeaves, Tree-Sorted, Linked, Linked-suffix}

module _ {S : Type 0} (visit : S → List ℕ → List ℕ → S × Bool) where
  -- The callback on one entry after the other, up to the first at which it asks to stop.
  unfoldable pub visit_until : S → List Entry → S
  visit_until s [] = s
  visit_until s (e ∷ es) =
      let rest = visit_until (visit s e.key e.value).0 es in
      elim ((visit s e.key e.value).1) [ true ↦ (visit s e.key e.value).0 | false ↦ rest ]

  -- The scan of a list of entries: it ends at the first key past the prefix too.
  scan_list : List ℕ → S → List Entry → S × Bool
  scan_list prefix s [] = (s, false)
  scan_list prefix s (e ∷ es) = elim (past_prefix prefix e.key) [
    | true ↦ (s, true)
    | false ↦ elim ((visit s e.key e.value).1) [
      | true ↦ ((visit s e.key e.value).0, true)
      | false ↦ scan_list prefix (visit s e.key e.value).0 es
    ]
  ]

  scan_list-over :
      (prefix : List ℕ) (s : S) (es fs : List Entry)
      → (scan_list prefix s es).1 ≡ true
      → scan_list prefix s (es ++ fs) ≡ scan_list prefix s es
  unfolding scan_list
  scan_list-over prefix s [] fs h = cc
  scan_list-over prefix s (e ∷ es) fs h =
      ground (arith, scan_list-over prefix (visit s e.key e.value).0 es fs)

  scan_list-on :
      (prefix : List ℕ) (s : S) (es fs : List Entry)
      → (scan_list prefix s es).1 ≡ false
      → scan_list prefix s (es ++ fs) ≡ scan_list prefix (scan_list prefix s es).0 fs
  unfolding scan_list
  scan_list-on prefix s [] fs h = refl
  scan_list-on prefix s (e ∷ es) fs h =
      ground (arith, scan_list-on prefix (visit s e.key e.value).0 es fs)

  -- From a key on that is not below the prefix, the scan visits the entries that extend it.
  scan_list-with_prefix :
      (prefix : List ℕ) (s : S) (es : List Entry)
      → Sorted es
      → All (λ e. lex e.key prefix ≢ Ordering.lt) es
      → (scan_list prefix s es).0 ≡ visit_until s (with_prefix prefix es)
  unfolding scan_list visit_until with_prefix
  scan_list-with_prefix prefix s [] sorted nb = refl
  scan_list-with_prefix prefix s (e ∷ es) sorted nb = elim (Bool-cases (extends prefix e.key)) [
    | inl inside ↦ ground (
      arith,
      past_prefix-extends prefix e.key,
      scan_list-with_prefix prefix (visit s e.key e.value).0 es sorted.1 nb.1,
    )
    | inr past ↦
        let none_left =
          with_prefix_none prefix es
            (All-mono _ _ es (λ f h. extends_past prefix e.key f.key nb.0 past h) sorted.0) in
        ground (arith, past_prefix-extends prefix e.key, none_left)
  ]

  drop_cons :
      (es : List Entry) (i : ℕ) {e : Entry}
      → get_elem? es i ≡ some e
      → drop i es ≡ e ∷ drop (suc i) es
  drop_cons [] i h = absurd (ground arith)
  drop_cons (f ∷ es) zero h = ground arith
  drop_cons (f ∷ es) (suc i) h = drop_cons es i h

  drop_end : (es : List Entry) (i : ℕ) → length es ≤ i → drop i es ≡ []
  drop_end [] zero h = refl
  drop_end [] (suc i) h = refl
  drop_end (f ∷ es) zero h = absurd (omega arith)
  drop_end (f ∷ es) (suc i) h = drop_end es i (omega arith)

  module _ (prefix : List ℕ) where
    -- The loop over the pairs of a leaf.
    scan_entries-list :
        (page : Page) (es : List Entry)
        → Represents page es
        → (n i : ℕ) (s : S) → n ≡ length es - i
        → scan_entries visit prefix n page i s ≡ done (scan_list prefix s (drop i es))
    unfolding scan_entries scan_list
    scan_entries-list page es r zero i s count = rw (drop_end es i (omega arith))
    scan_entries-list page es r (suc n) i s count =
        let (e, at) = get_elem?_in es i (omega arith) in
        rw (drop_cons es i at) (
          ground (
            arith,
            get_kv_pair-offset_of page es r i (omega arith),
            load_key-get page es r i at,
            load_value-get page es r i at,
            scan_entries-list page es r n (i + 1) (visit s e.key e.value).0 (omega arith),
          ))

    module _ (pages : ℕ → Option Page) where
      over_step :
          (fuel start : ℕ) (page : Page) (s t : S)
          → scan_entries visit prefix (page.key_count - start) page start s ≡ done (t, true)
          → scan_leaves visit prefix (suc fuel) pages page start s ≡ done (complete t)
      unfolding scan_leaves
      over_step fuel start page s t h = ground arith

      last_step :
          (fuel start : ℕ) (page : Page) (s t : S)
          → scan_entries visit prefix (page.key_count - start) page start s ≡ done (t, false)
          → page.next_page_id ≡ 0
          → scan_leaves visit prefix (suc fuel) pages page start s ≡ done (complete t)
      unfolding scan_leaves
      last_step fuel start page s t h end = ground arith

      next_step :
          (fuel start : ℕ) (page next : Page) (s t : S)
          → scan_entries visit prefix (page.key_count - start) page start s ≡ done (t, false)
          → page.next_page_id ≢ 0
          → pages page.next_page_id ≡ some next
          → scan_leaves visit prefix (suc fuel) pages page start s
            ≡ scan_leaves visit prefix fuel pages next 0 t
      unfolding scan_leaves
      next_step fuel start page next s t h more there = ground arith

      entries_of :
          (l : Leaf) (start : ℕ) (s : S)
          → IsLeaf pages l
          → scan_entries visit prefix (l.page.key_count - start) l.page start s
            ≡ done (scan_list prefix s (drop start l.entries))
      entries_of l start s is_leaf =
          scan_entries-list l.page l.entries is_leaf.holds (l.page.key_count - start) start s
            (ap (λ n. n - start) is_leaf.holds.counted)

      -- The walk along the chain scans the entries of its leaves one behind the other.
      scan_leaves-list :
          (ls : List Leaf) (l : Leaf) (fuel start : ℕ) (s : S)
          → length ls < fuel
          → AllLeaves pages (l ∷ ls)
          → Linked (l ∷ ls)
          → scan_leaves visit prefix fuel pages l.page start s
            ≡ done (complete (scan_list prefix s (drop start l.entries ++ contents ls)).0)
      scan_leaves-list ls l zero start s enough leaves linked = absurd (omega arith)
      scan_leaves-list [] l (suc fuel) start s enough leaves linked =
          let r = scan_list prefix s (drop start l.entries) in
          let loop = entries_of l start s leaves.0 in
          elim (Bool-cases (r.1)) [
            | inl over ↦ over_step fuel start l.page s r.0 (loop ∙ ap (λ b. done (r.0, b)) over)
            | inr on ↦ last_step fuel start l.page s r.0 (loop ∙ ap (λ b. done (r.0, b)) on) linked
          ]
          ∙ ap (λ es. done (complete (scan_list prefix s es).0))
              (sym (append_nil (drop start l.entries)))
      scan_leaves-list (m ∷ ls) l (suc fuel) start s enough leaves linked =
          let here = drop start l.entries in
          let r = scan_list prefix s here in
          let loop = entries_of l start s leaves.0 in
          let later = m.entries ++ contents ls in
          elim (Bool-cases (r.1)) [
            | inl over ↦
                over_step fuel start l.page s r.0 (loop ∙ ap (λ b. done (r.0, b)) over)
                ∙ ap (λ t. done (complete t.0)) (sym (scan_list-over prefix s here later over))
            | inr on ↦
                next_step fuel start l.page m.page s r.0 (loop ∙ ap (λ b. done (r.0, b)) on)
                  (λ none_next. linked.1 (sym linked.0 ∙ none_next))
                  (ap pages linked.0 ∙ leaves.1.0.there)
                ∙ scan_leaves-list ls m fuel 0 r.0 (omega arith) leaves.1 linked.2
                ∙ ap (λ t. done (complete t.0)) (sym (scan_list-on prefix s here later on))
          ]

AllLeaves-suffix :
    (pages : ℕ → Option Page) (ls ms : List Leaf) → AllLeaves pages (ls ++ ms) → AllLeaves pages ms
AllLeaves-suffix pages [] ms h = h
AllLeaves-suffix pages (l ∷ ls) ms h = AllLeaves-suffix pages ls ms h.1

Sorted-suffix : (es fs : List Entry) → Sorted (es ++ fs) → Sorted fs
Sorted-suffix [] fs h = h
Sorted-suffix (e ∷ es) fs h = Sorted-suffix es fs h.1

not_lt_of_above : (a b : List ℕ) → lex a b ≡ Ordering.lt → lex b a ≢ Ordering.lt
not_lt_of_above a b h k = let flipped = lex-lt→gt a b h in ground arith

-- The entries of a reached leaf from the search position on, and those of the leaves behind it.
module _ (pages : ℕ → Option Page) (prefix : List ℕ) (leaves before after : List Leaf) (l : Leaf)
    (around : leaves ≡ before ++ (l ∷ after)) (r : ℕ)
    (first : IsFirstNotBelow l.entries prefix r) where
  abbrev rest : List Entry
  rest = drop r l.entries ++ contents after

  abbrev front : List Entry
  front = contents before ++ take r l.entries

  whole : contents leaves ≡ front ++ rest
  whole =
      ap contents around
      ∙ contents-append before (l ∷ after)
      ∙ ap (λ es. contents before ++ (es ++ contents after)) (sym (take-append-drop r l.entries))
      ∙ ap (contents before ++◌)
          (append_assoc (take r l.entries) (drop r l.entries) (contents after))
      ∙ sym (append_assoc (contents before) (take r l.entries) rest)

  front_below : AllBelow prefix (contents before) → AllBelow prefix front
  front_below below =
      All-append _ (contents before) (take r l.entries) below (below_first l.entries prefix r first)

  rest_not_below : AllAbove prefix (contents after) → All (λ e. lex e.key prefix ≢ Ordering.lt) rest
  rest_not_below above =
      All-append _ (drop r l.entries) (contents after)
        (All-get _ (drop r l.entries) (λ i e at.
          first.above (r + i) e (omega arith) (get_elem?-drop l.entries r i (r + i) refl at)))
        (All-mono _ _ (contents after) (λ e h. not_lt_of_above prefix e.key h) above)

started :
    {S : Type 0} (visit : S → List ℕ → List ℕ → S × Bool) (prefix : List ℕ)
    (pages : ℕ → Option Page) (depth width id start : ℕ) (page : Page) (s : S)
    → length prefix ≤ max_key_size
    → descend_from depth pages prefix root_page_id ≡ done (at_leaf id page)
    → find_key_position page prefix ≡ done start
    → db_scan_prefix visit prefix depth width pages active s
      ≡ scan_leaves visit prefix width pages page start s
unfolding db_scan_prefix descend_to_leaf
started visit prefix pages depth width id start page s short went found = ground arith

-- In an active transaction, with fuel for the height and for the number of leaves of a well-formed
-- tree whose leaves are linked, a scan with a prefix of at most 256 bytes ends without a fault,
-- returns 0, and has called the callback on exactly the entries whose key starts with the prefix,
-- in the order of the keys, up to the first one at which the callback asked to stop.
pub db_scan_prefix-visits :
    {S : Type 0} (visit : S → List ℕ → List ℕ → S × Bool) (prefix : List ℕ)
    (pages : ℕ → Option Page) (h depth width : ℕ) (leaves : List Leaf) (s : S)
    → h < depth
    → length leaves ≤ width
    → length prefix ≤ max_key_size
    → Tree pages h root_page_id leaves
    → Linked leaves
    → db_scan_prefix visit prefix depth width pages active s
      ≡ done (complete (visit_until visit s (with_prefix prefix (contents leaves))))
db_scan_prefix-visits visit prefix pages h depth width leaves s deep wide short tree linked =
    let (d, went, reached) =
      result_of (descend_from depth pages prefix root_page_id) (Reached pages prefix leaves)
        (descend_from-Reached pages prefix h depth root_page_id leaves deep tree) in
    let leaf = reached.leaf in
    let owner = reached.is_leaf in
    let (r, found, first) =
      result_of (find_key_position leaf.page prefix) (IsFirstNotBelow leaf.entries prefix) (
        find_key_position-IsFirstNotBelow leaf.page leaf.entries owner.holds owner.sorted prefix) in
    let chain =
      scan_leaves-list visit prefix pages reached.after leaf width r s
        (omega
          (arith, ap length reached.around, length-append reached.before (leaf ∷ reached.after)))
        (AllLeaves-suffix pages reached.before (leaf ∷ reached.after) (
          subst (AllLeaves pages) reached.around (Tree-AllLeaves pages h root_page_id leaves tree)))
        (Linked-suffix reached.before leaf reached.after (subst Linked reached.around linked)) in
    let parts =
      whole pages prefix leaves reached.before reached.after leaf reached.around r first in
    let remaining = drop r leaf.entries ++ contents reached.after in
    let visited =
      scan_list-with_prefix visit prefix s remaining
        (Sorted-suffix (contents reached.before ++ take r leaf.entries) remaining
          (subst Sorted parts (Tree-Sorted pages h root_page_id leaves tree)))
        (rest_not_below pages prefix leaves reached.before reached.after leaf reached.around r first
          reached.above) in
    let same : with_prefix prefix (contents leaves) ≡ with_prefix prefix remaining =
      ap (with_prefix prefix) parts
      ∙ with_prefix-below prefix (contents reached.before ++ take r leaf.entries) remaining (
          front_below pages prefix leaves reached.before reached.after leaf reached.around r first
            reached.below) in
    started visit prefix pages depth width leaf.id r leaf.page s short (went ∙ ap done reached.ends)
      found
    ∙ chain
    ∙ ap (λ t. done (complete t)) (visited ∙ ap (visit_until visit s) (sym same))
