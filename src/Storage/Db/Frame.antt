-- ===== src/Storage/Db/Frame.antt =====
-- A change of one leaf in a well-formed tree of storage/src/db.c, which leaves the other pages as
-- they are.
use codo.Prelude.{
  ℕ, zero, suc, ◌≡◌, refl, ◌∙◌, ap, subst, Option, some, List, [], ◌∷◌, ◌++◌, ◌==◌, if◌then◌else◌,
  arith, map, Bool-cases, inl, inr,
}
use mathlib.Core.List.{map-append}
use codo.Storage.Page.{Page, PageType}
use codo.Storage.Page.Entries.{Entry, Represents}
use codo.Storage.Page.Search.{Ascending}
use codo.Storage.Db.Store.{put_page}
use codo.Storage.Db.Tree.{
  Leaf, IsLeaf, contents, flat, All, All-append, AllAbove, Routed, Children, Tree,
}

-- A leaf with the page and the entries it has after the page `id` has become `page'`.
abbrev pub changed : ℕ → Page → (List Entry → List Entry) → Leaf → Leaf
changed id page' f l = if l.id == id then record l { page = page'; entries = f l.entries } else l

pub All-split : (P : Entry → Type 0) (es fs : List Entry) → All P (es ++ fs) → All P es × All P fs
All-split P [] fs h = (tt, h)
All-split P (e ∷ es) fs h = let (l, r) = All-split P es fs h.1 in ((h.0, l), r)

map-flat :
    (g : Leaf → Leaf) (parts : List (List Leaf)) (last : List Leaf)
    → map g (flat parts last) ≡ flat (map (map g) parts) (map g last)
map-flat g [] last = refl
map-flat g (p ∷ parts) last =
    map-append g p (flat parts last) ∙ ap (map g p ++◌) (map-flat g parts last)

-- Page `id` is a leaf's and becomes `page'`; a change `f` of its entries keeps them a leaf's.
module _ (pages : ℕ → Option Page) (id : ℕ) (page page' : Page) (f : List Entry → List Entry)
    (there : pages id ≡ some page) (kind : page.page_type ≡ PageType.leaf)
    (kind' : page'.page_type ≡ PageType.leaf)
    (kept : (es : List Entry)
      → Represents page es
      → Ascending es
      → Represents page' (f es) × Ascending (f es))
    (fewer : (P : Entry → Type 0) (es : List Entry) → All P es → All P (f es)) where
  node_there :
      (i : ℕ) (p : Page)
      → pages i ≡ some p
      → p.page_type ≡ PageType.internal
      → put_page id page' pages i ≡ some p
  node_there i p at inner = elim (Bool-cases (id == i)) [
    | inl eq ↦ let same : id ≡ i = ground (arith, eq) in absurd (ground (arith, ap pages same))
    | inr ne ↦ rw ne at
  ]

  changed-id : (l : Leaf) → (changed id page' f l).id ≡ l.id
  changed-id l = ground arith

  changed-IsLeaf :
      (l : Leaf) → IsLeaf pages l → IsLeaf (put_page id page' pages) (changed id page' f l)
  changed-IsLeaf l h = elim (Bool-cases (l.id == id)) [
    | inl eq ↦
        let same : l.id ≡ id = ground (arith, eq) in
        let page_same : l.page ≡ page = cc (h.there, ap pages same, there) in
        let (holds, sorted) =
          kept l.entries (subst (λ p. Represents p l.entries) page_same h.holds) h.sorted in
        rw eq (record {
          id_set = h.id_set;
          there = ground (arith, same);
          kind = kind';
          holds = holds;
          sorted = sorted;
        })
    | inr ne ↦ rw ne (record {
      id_set = h.id_set;
      there = ground (arith, ne, h.there);
      kind = h.kind;
      holds = h.holds;
      sorted = h.sorted;
    })
  ]

  changed-All :
      (P : Entry → Type 0) (ls : List Leaf)
      → All P (contents ls)
      → All P (contents (map (changed id page' f) ls))
  changed-All P [] h = tt
  changed-All P (l ∷ ls) h =
      let (here, rest) = All-split P l.entries (contents ls) h in
      All-append P (changed id page' f l).entries _
        (elim (Bool-cases (l.id == id)) [
          | inl eq ↦ rw eq (fewer P l.entries here)
          | inr ne ↦ rw ne here
        ])
        (changed-All P ls rest)

  changed-Routed :
      (seps : List Entry) (parts : List (List Leaf)) (last : List Leaf)
      → Routed seps parts last
      → Routed seps (map (map (changed id page' f)) parts) (map (changed id page' f) last)
  changed-Routed [] parts last h = tt
  changed-Routed (s ∷ seps) [] last h = absurd h
  changed-Routed (s ∷ seps) (p ∷ parts) last h = (
    changed-All _ p h.0,
    subst (λ ls. AllAbove s.key (contents ls)) (map-flat (changed id page' f) parts last)
        (changed-All _ (flat parts last) h.1),
    changed-Routed seps parts last h.2,
  )

  changed-Children :
      (T U : ℕ → List Leaf → Type 0)
      → ((i : ℕ) (ls : List Leaf) → T i ls → U i (map (changed id page' f) ls))
      → (seps : List Entry) (parts : List (List Leaf)) → Children T seps parts
      → Children U seps (map (map (changed id page' f)) parts)
  changed-Children T U sub [] [] h = tt
  changed-Children T U sub [] (p ∷ parts) h = absurd h
  changed-Children T U sub (s ∷ seps) [] h = absurd h
  changed-Children T U sub (s ∷ seps) (p ∷ parts) h =
      (sub s.child p h.0, changed-Children T U sub seps parts h.1)

  -- The tree stays well-formed, with the leaf changed.
  pub changed-Tree :
      (h i : ℕ) (leaves : List Leaf)
      → Tree pages h i leaves
      → Tree (put_page id page' pages) h i (map (changed id page' f) leaves)
  changed-Tree zero i leaves (l, single, at, is_leaf) = (
    changed id page' f l,
    ap (map (changed id page' f)) single,
    changed-id l ∙ at,
    changed-IsLeaf l is_leaf,
  )
  changed-Tree (suc h) i leaves t = record {
    page = t.page;
    seps = t.seps;
    parts = map (map (changed id page' f)) t.parts;
    last = map (changed id page' f) t.last;
    id_set = t.id_set;
    there = node_there i t.page t.there t.kind;
    kind = t.kind;
    holds = t.holds;
    sorted = t.sorted;
    children =
        changed-Children (Tree pages h) (Tree (put_page id page' pages) h) (changed-Tree h) t.seps
          t.parts t.children;
    rightmost = changed-Tree h t.page.next_page_id t.last t.rightmost;
    routed = changed-Routed t.seps t.parts t.last t.routed;
    leaves_are =
        ap (map (changed id page' f)) t.leaves_are ∙ map-flat (changed id page' f) t.parts t.last;
  }
