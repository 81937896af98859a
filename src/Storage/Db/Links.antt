-- ===== src/Storage/Db/Links.antt =====
-- The sibling links of storage/src/db.c and a change of one leaf: in a linked chain no two leaves
-- have the same id, so that only the leaf meant changes.
use codo.Prelude.{
  ℕ, suc, ◌≡◌, ◌≢◌, refl, ◌∙◌, ap, ap₂, sym, subst, Option, some, List, [], ◌∷◌, ◌++◌, ◌==◌, arith,
  map, length, length-append, Bool-cases, inl, inr,
}
use mathlib.Core.List.{map-append, append_assoc}
use codo.Storage.Page.{Page}
use codo.Storage.Page.Entries.{Entry}
use codo.Storage.Db.Tree.{Leaf, IsLeaf, contents, contents-append}
use codo.Storage.Db.Chain.{AllLeaves, Linked, Linked-suffix}
use codo.Storage.Db.Frame.{changed}

page_same :
    (pages : ℕ → Option Page) (l m : Leaf)
    → IsLeaf pages l
    → IsLeaf pages m
    → l.id ≡ m.id
    → l.page ≡ m.page
page_same pages l m hl hm same = cc (hl.there, hm.there, ap pages same)

-- Two chains that start at the same page are equally long.
length-links :
    (pages : ℕ → Option Page) (l m : Leaf) (ls ms : List Leaf)
    → AllLeaves pages (l ∷ ls)
    → AllLeaves pages (m ∷ ms)
    → Linked (l ∷ ls)
    → Linked (m ∷ ms)
    → l.id ≡ m.id
    → length ls ≡ length ms
length-links pages l m [] [] al am hl hm same = refl
length-links pages l m [] (m' ∷ ms) al am hl hm same =
    let next = ap (λ p. p.next_page_id) (page_same pages l m al.0 am.0 same) in
    absurd (hm.1 (sym hm.0 ∙ sym next ∙ hl))
length-links pages l m (l' ∷ ls) [] al am hl hm same =
    let next = ap (λ p. p.next_page_id) (page_same pages l m al.0 am.0 same) in
    absurd (hl.1 (sym hl.0 ∙ next ∙ hm))
length-links pages l m (l' ∷ ls) (m' ∷ ms) al am hl hm same =
    let next = ap (λ p. p.next_page_id) (page_same pages l m al.0 am.0 same) in
    ap suc (length-links pages l' m' ls ms al.1 am.1 hl.2 hm.2 (sym hl.0 ∙ next ∙ hm.0))

pub AllLeaves-after :
    (pages : ℕ → Option Page) (ls ms : List Leaf) → AllLeaves pages (ls ++ ms) → AllLeaves pages ms
AllLeaves-after pages [] ms h = h
AllLeaves-after pages (l ∷ ls) ms h = AllLeaves-after pages ls ms h.1

-- No leaf of the list has the id.
abbrev pub Absent : ℕ → List Leaf → Type 0
Absent id [] = Unit
Absent id (l ∷ ls) = (l.id ≢ id) × Absent id ls

Linked-tail : (k : Leaf) (ls : List Leaf) → Linked (k ∷ ls) → Linked ls
Linked-tail k [] h = tt
Linked-tail k (l ∷ ls) h = h.2

-- The leaves before one are further from the end of the chain, those after it nearer.
pub Absent-before :
    (pages : ℕ → Option Page) (before : List Leaf) (l : Leaf) (after : List Leaf)
    → AllLeaves pages (before ++ (l ∷ after))
    → Linked (before ++ (l ∷ after))
    → Absent l.id before
Absent-before pages [] l after all linked = tt
Absent-before pages (k ∷ ks) l after all linked = (
  (λ same.
      let longer =
        length-links pages k l (ks ++ (l ∷ after)) after all
          (AllLeaves-after pages (k ∷ ks) (l ∷ after) all) linked
          (Linked-suffix (k ∷ ks) l after linked) same in
      omega (arith, longer, length-append ks (l ∷ after))),
  Absent-before pages ks l after all.1 (Linked-tail k (ks ++ (l ∷ after)) linked),
)

pub Absent-after :
    (pages : ℕ → Option Page) (l : Leaf) (between after : List Leaf)
    → AllLeaves pages (l ∷ (between ++ after))
    → Linked (l ∷ (between ++ after))
    → Absent l.id after
Absent-after pages l between [] all linked = tt
Absent-after pages l between (k ∷ ks) all linked = (
  (λ same.
      let shorter =
        length-links pages k l ks (between ++ (k ∷ ks))
          (AllLeaves-after pages (l ∷ between) (k ∷ ks) all) all
          (Linked-suffix (l ∷ between) k ks linked) linked same in
      omega (arith, shorter, length-append between (k ∷ ks))),
  Absent-after pages l (between ++ (k ∷ [])) ks
      (subst (λ t. AllLeaves pages (l ∷ t)) (sym (append_assoc between (k ∷ []) ks)) all)
      (subst (λ t. Linked (l ∷ t)) (sym (append_assoc between (k ∷ []) ks)) linked),
)

map-Absent :
    (id : ℕ) (page' : Page) (f : List Entry → List Entry) (ls : List Leaf)
    → Absent id ls
    → map (changed id page' f) ls ≡ ls
map-Absent id page' f [] h = refl
map-Absent id page' f (l ∷ ls) h =
    let other = h.0 in
    let here : changed id page' f l ≡ l = ground arith in
    ap₂ ◌∷◌ here (map-Absent id page' f ls h.1)

-- The contents of a chain in which one leaf changes.
pub contents-changed :
    (pages : ℕ → Option Page) (page' : Page) (f : List Entry → List Entry) (before : List Leaf)
    (l : Leaf) (after : List Leaf)
    → AllLeaves pages (before ++ (l ∷ after))
    → Linked (before ++ (l ∷ after))
    → contents (map (changed l.id page' f) (before ++ (l ∷ after)))
      ≡ contents before ++ (f l.entries ++ contents after)
contents-changed pages page' f before l after all linked =
    let front = map-Absent l.id page' f before (Absent-before pages before l after all linked) in
    let back = map-Absent l.id page' f after (
      Absent-after pages l [] after (AllLeaves-after pages before (l ∷ after) all)
        (Linked-suffix before l after linked)) in
    let here : (changed l.id page' f l).entries ≡ f l.entries = ground arith in
    ap contents (map-append (changed l.id page' f) before (l ∷ after))
    ∙ contents-append (map (changed l.id page' f) before) (map (changed l.id page' f) (l ∷ after))
    ∙ ap₂ (λ x y. contents x ++ y) front (ap₂ (λ x y. x ++ contents y) here back)

-- A change that keeps the leaf's link keeps the chain.
module _ (pages : ℕ → Option Page) (id : ℕ) (page page' : Page) (f : List Entry → List Entry)
    (there : pages id ≡ some page) (link : page'.next_page_id ≡ page.next_page_id) where
  changed-next :
      (l : Leaf) → IsLeaf pages l → (changed id page' f l).page.next_page_id ≡ l.page.next_page_id
  changed-next l h = elim (Bool-cases (l.id == id)) [
    | inl eq ↦
        let same : l.id ≡ id = ground (arith, eq) in
        let page_is : l.page ≡ page = cc (h.there, ap pages same, there) in
        rw eq (link ∙ ap (λ p. p.next_page_id) (sym page_is))
    | inr ne ↦ rw ne refl
  ]

  changed-id : (l : Leaf) → (changed id page' f l).id ≡ l.id
  changed-id l = ground arith

  pub changed-Linked :
      (ls : List Leaf) → AllLeaves pages ls → Linked ls → Linked (map (changed id page' f) ls)
  changed-Linked [] all h = tt
  changed-Linked (l ∷ []) all h = changed-next l all.0 ∙ h
  changed-Linked (l ∷ m ∷ ls) all h = (
    changed-next l all.0 ∙ h.0 ∙ sym (changed-id m),
    (λ e. h.1 (sym (changed-id m) ∙ e)),
    changed-Linked (m ∷ ls) all.1 h.2,
  )

-- One leaf of a chain gets another page with the same link.
pub Linked-with_page :
    (before : List Leaf) (l l' : Leaf) (after : List Leaf)
    → l'.id ≡ l.id
    → l'.page.next_page_id ≡ l.page.next_page_id
    → Linked (before ++ (l ∷ after))
    → Linked (before ++ (l' ∷ after))
Linked-with_page [] l l' [] id link h = link ∙ h
Linked-with_page [] l l' (m ∷ after) id link h = (link ∙ h.0, h.1, h.2)
Linked-with_page (k ∷ []) l l' after id link h =
    (h.0 ∙ sym id, (λ e. h.1 (sym id ∙ e)), Linked-with_page [] l l' after id link h.2)
Linked-with_page (k ∷ k' ∷ before) l l' after id link h =
    (h.0, h.1, Linked-with_page (k' ∷ before) l l' after id link h.2)
