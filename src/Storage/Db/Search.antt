-- ===== src/Storage/Db/Search.antt =====
-- The search of storage/src/db.c in a well-formed tree is a lookup in its list of entries.
use Prim.Native.Nat.{Ordering}
use codo.Prelude.{
  ℕ, suc, ◌+◌, ◌<◌, ◌≡◌, ◌≢◌, refl, ◌∙◌, ap, sym, subst, inl, inr, Option, none, some, List, [],
  ◌∷◌, ◌++◌, arith, length, take, drop, get_elem?, get_elem?_in, split_at, append_nil,
}
use native.Mathlib.Decide.{dec_lt}
use codo.Storage.Memory.{done}
use codo.Storage.Page.{Page, find_key_position, get_kv_pair}
use codo.Storage.Page.Entries.{Entry, Represents}
use codo.Storage.Page.Keys.{
  lex, compare_keys-lex, Ordering-cases, lex-gt→lt, lex-lt→gt, lex_trans, eq_of_lex,
}
use codo.Storage.Page.Search.{Ascending, IsFirstNotBelow, find_key_position-IsFirstNotBelow}
use codo.Storage.Page.Reads.{get_kv_pair-offset_of}
use codo.Storage.Txn.{active}
use codo.Storage.Db.{
  root_page_id, Answer, value_is, missing, answer_at, search_leaf, descend_from, descend_to_leaf,
  db_search,
}
use codo.Storage.Db.Tree.{Leaf, contents, contents-append, Tree, AllBelow, AllAbove}
use codo.Storage.Db.Descend.{Reached, descend_from-Reached, result_of}
use codo.Storage.Db.Values.{
  load_key-get, copy_value-get, take_all, get_elem?-take, get_elem?-drop, All-get,
}

-- The value of the entry with a key.
unfoldable pub lookup : List ℕ → List Entry → Option (List ℕ)
lookup key [] = none
lookup key (e ∷ es) = elim (lex key e.key) [ Ordering.eq ↦ some e.value | _ ↦ lookup key es ]

-- What a search answers to a caller with a buffer of `room` bytes.
abbrev pub answer : ℕ → Option (List ℕ) → Answer
answer room none = missing
answer room (some value) = value_is (take room value) (length value)

pub le_lt_trans :
    (a b c : List ℕ) → lex a b ≢ Ordering.gt → lex b c ≡ Ordering.lt → lex a c ≡ Ordering.lt
le_lt_trans a b c le lt = elim (Ordering-cases (lex a b)) [
  | inl less ↦ lex_trans a b c less lt
  | inr (inl eq) ↦ subst (λ k. lex k c ≡ Ordering.lt) (sym (eq_of_lex a b eq)) lt
  | inr (inr gt) ↦ absurd (le gt)
]

pub lookup-below :
    (key : List ℕ) (es fs : List Entry) → AllBelow key es → lookup key (es ++ fs) ≡ lookup key fs
unfolding lookup
lookup-below key [] fs h = refl
lookup-below key (e ∷ es) fs h = ground (arith, lex-lt→gt e.key key h.0, lookup-below key es fs h.1)

pub lookup-above : (key : List ℕ) (es : List Entry) → AllAbove key es → lookup key es ≡ none
unfolding lookup
lookup-above key [] h = refl
lookup-above key (e ∷ es) h = let above = h.0 in ground (arith, lookup-above key es h.1)

pub lookup-append_above :
    (key : List ℕ) (es fs : List Entry) → AllAbove key fs → lookup key (es ++ fs) ≡ lookup key es
unfolding lookup
lookup-append_above key [] fs h = lookup-above key fs h
lookup-append_above key (e ∷ es) fs h = ground (arith, lookup-append_above key es fs h)

module _ (es : List Entry) (key : List ℕ) (r : ℕ) (first : IsFirstNotBelow es key r) where
  pub below_first : AllBelow key (take r es)
  below_first =
      All-get _ (take r es)
        (λ i e at. let (lt, there) = get_elem?-take es r i at in first.below i e lt there)

  -- The entries behind the one at the position are above it, and so above the key.
  pub above_first :
      (e : Entry)
      → Ascending es
      → get_elem? es r ≡ some e
      → lex key e.key ≢ Ordering.gt
      → AllAbove key (drop (suc r) es)
  above_first e sorted at le = All-get _ (drop (suc r) es) (λ i f there.
      le_lt_trans key e.key f.key le (
        sorted r (suc r + i) e f (omega arith) at
          (get_elem?-drop es (suc r) i (suc r + i) refl there)))

  pub not_above : (e : Entry) → get_elem? es r ≡ some e → lex key e.key ≢ Ordering.gt
  not_above e at gt = first.above r e (omega arith) at (lex-gt→lt key e.key gt)

  pub lookup-first :
      (e : Entry) → get_elem? es r ≡ some e → lookup key es ≡ lookup key (e ∷ drop (suc r) es)
  lookup-first e at =
      ap (lookup key) (split_at es r at)
      ∙ lookup-below key (take r es) (e ∷ drop (suc r) es) below_first

-- A key that is there stands at the search position.
pub lookup-at :
    (es : List Entry) (key : List ℕ) (r : ℕ)
    → IsFirstNotBelow es key r
    → (value : List ℕ) → Ascending es
    → lookup key es ≡ some value
    → (e : Entry) × (get_elem? es r ≡ some e) × (lex key e.key ≡ Ordering.eq) × (e.value ≡ value)
unfolding lookup
lookup-at es key r first value sorted there = elim (dec_lt r (length es)) [
  | yes lt ↦
      let (e, at) = get_elem?_in es r lt in
      let moved = sym (lookup-first es key r first e at) ∙ there in
      let gone =
        lookup-above key (drop (suc r) es)
          (above_first es key r first e sorted at (not_above es key r first e at)) in
      elim (Ordering-cases (lex key e.key)) [
        | inl less ↦ absurd (ground (arith, moved, gone))
        | inr (inl same) ↦ (e, at, same, ground (arith, moved))
        | inr (inr gt) ↦ absurd (not_above es key r first e at gt)
      ]
  | no end ↦
      let all_below : AllBelow key es =
        subst (AllBelow key) (take_all r es (omega arith)) (below_first es key r first) in
      let absent = ap (lookup key) (sym (append_nil es)) ∙ lookup-below key es [] all_below in
      absurd (ground (arith, absent))
]

module _ (page : Page) (es : List Entry) (holds : Represents page es) (sorted : Ascending es)
    (key : List ℕ) (r : ℕ) (first : IsFirstNotBelow es key r) (room : ℕ)
    (found : find_key_position page key ≡ done r) where
  -- There is an entry at the position: it is the one, or the key is missing.
  hit :
      (e : Entry)
      → get_elem? es r ≡ some e
      → r < length es
      → search_leaf page key room ≡ done (answer room (lookup key es))
  unfolding search_leaf answer_at lookup
  hit e at lt =
      let none_later =
        lookup-above key (drop (suc r) es)
          (above_first es key r first e sorted at (not_above es key r first e at)) in
      rw (lookup-first es key r first e at) (
        ground (
          arith,
          found,
          get_kv_pair-offset_of page es holds r lt,
          load_key-get page es holds r at,
          copy_value-get page es holds r at room,
          compare_keys-lex key e.key,
          none_later,
        ))

  miss : r ≡ length es → search_leaf page key room ≡ done (answer room (lookup key es))
  unfolding search_leaf answer_at get_kv_pair lookup
  miss end =
      let all_below : AllBelow key es =
        subst (AllBelow key) (take_all r es (omega arith)) (below_first es key r first) in
      let absent : lookup key es ≡ none =
        ap (lookup key) (sym (append_nil es)) ∙ lookup-below key es [] all_below ∙ refl in
      rw absent (ground (arith, found, holds.counted))

  pub search_leaf-lookup : search_leaf page key room ≡ done (answer room (lookup key es))
  search_leaf-lookup = elim (dec_lt r (length es)) [
    | yes lt ↦ let (e, at) = get_elem?_in es r lt in hit e at lt
    | no end ↦ miss (omega (arith, first.inside))
  ]

-- In an active transaction, with fuel for the height of a well-formed tree, a search in it ends
-- without a fault, and answers what the tree's list of entries has under the key: its value, of
-- which the caller gets as much as its buffer holds, and its full length; or -1 if no entry has
-- the key.
pub db_search-lookup :
    (pages : ℕ → Option Page) (h fuel : ℕ) (leaves : List Leaf) (key : List ℕ) (room : ℕ)
    → h < fuel
    → Tree pages h root_page_id leaves
    → db_search fuel pages active key room ≡ done (answer room (lookup key (contents leaves)))
unfolding db_search descend_to_leaf
db_search-lookup pages h fuel leaves key room enough tree =
    let (d, went, reached) =
      result_of (descend_from fuel pages key root_page_id) (Reached pages key leaves)
        (descend_from-Reached pages key h fuel root_page_id leaves enough tree) in
    let leaf = reached.leaf in
    let owner = reached.is_leaf in
    let (r, found, first) =
      result_of (find_key_position leaf.page key) (IsFirstNotBelow leaf.entries key)
        (find_key_position-IsFirstNotBelow leaf.page leaf.entries owner.holds owner.sorted key) in
    let same : lookup key (contents leaves) ≡ lookup key leaf.entries =
      ap (λ ls. lookup key (contents ls)) reached.around
      ∙ ap (lookup key) (contents-append reached.before (leaf ∷ reached.after))
      ∙ lookup-below key (contents reached.before) (leaf.entries ++ contents reached.after)
          reached.below
      ∙ lookup-append_above key leaf.entries (contents reached.after) reached.above in
    rw (went, reached.ends, same)
      (search_leaf-lookup leaf.page leaf.entries owner.holds owner.sorted key r first room found)
