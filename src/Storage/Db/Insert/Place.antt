-- ===== src/Storage/Db/Insert/Place.antt =====
-- The leaf of a well-formed tree of storage/src/db.c that a key leads to, and the tree with another
-- page in its place.
use codo.Prelude.{
  ℕ, zero, suc, ◌<◌, ◌≡◌, ◌≢◌, refl, ◌∙◌, ap, sym, subst, Option, some, List, [], ◌∷◌, ◌++◌, arith,
}
use mathlib.Core.List.{append_assoc}
use codo.Storage.Memory.{done}
use codo.Storage.Page.{Page, PageType, find_key_position}
use codo.Storage.Page.Entries.{Entry, Represents}
use codo.Storage.Page.Search.{Ascending, IsFirstNotBelow, find_key_position-IsFirstNotBelow}
use codo.Storage.Db.{at_leaf, descend_from}
use codo.Storage.Db.Store.{put_page}
use codo.Storage.Db.Tree.{
  Leaf, IsLeaf, contents, contents-append, AllBelow, AllAbove, All-append, Tree,
}
use codo.Storage.Db.Descend.{child_of, result_of, child_toward-child_of, leaf_step, node_step}
use codo.Storage.Db.Frame.{All-split}
use codo.Storage.Db.Links.{Absent}
use codo.Storage.Db.Insert.Slots.{Grows, Absent-split, Slot-of, others}

-- A leaf's page changes: a tree without that leaf stays.
module _ (pages : ℕ → Option Page) (id : ℕ) (page page' : Page) (there : pages id ≡ some page)
    (kind : page.page_type ≡ PageType.leaf) where
  other_page : (i : ℕ) → i ≢ id → put_page id page' pages i ≡ pages i
  other_page i other = ground arith

  node_other : (i : ℕ) (p : Page) → pages i ≡ some p → p.page_type ≡ PageType.internal → i ≢ id
  node_other i p at inner same = absurd (ground (arith, ap pages same))

  pub Tree-Absent :
      (h i : ℕ) (leaves : List Leaf)
      → Tree pages h i leaves
      → Absent id leaves
      → Tree (put_page id page' pages) h i leaves
  Tree-Absent zero i leaves (l, single, at, is_leaf) absent =
      let other = (subst (Absent id) single absent).0 in
      (
        l,
        single,
        at,
        record {
          id_set = is_leaf.id_set;
          there = other_page l.id other ∙ is_leaf.there;
          kind = is_leaf.kind;
          holds = is_leaf.holds;
          sorted = is_leaf.sorted;
        },
      )
  Tree-Absent (suc h) i leaves t absent =
      let (children, rightmost) =
        others (Tree pages h) (Tree (put_page id page' pages) h) id (Tree-Absent h) t.seps t.parts
          t.last t.page.next_page_id t.children t.rightmost
          (subst (Absent id) t.leaves_are absent) in
      record {
        page = t.page;
        seps = t.seps;
        parts = t.parts;
        last = t.last;
        id_set = t.id_set;
        there = other_page i (node_other i t.page t.there t.kind) ∙ t.there;
        kind = t.kind;
        holds = t.holds;
        sorted = t.sorted;
        children = children;
        rightmost = rightmost;
        routed = t.routed;
        leaves_are = t.leaves_are;
      }

pub Grows-around :
    (key : List ℕ) (b es fs a : List Entry)
    → Grows key es fs
    → Grows key (b ++ (es ++ a)) (b ++ (fs ++ a))
Grows-around key b es fs a g = record {
  up_to = λ s ge h.
      let (front, rest) = All-split _ b (es ++ a) h in
      let (middle, back) = All-split _ es a rest in
      All-append _ b (fs ++ a) front (All-append _ fs a (g.up_to s ge middle) back);
  above = λ s lt h.
      let (front, rest) = All-split _ b (es ++ a) h in
      let (middle, back) = All-split _ es a rest in
      All-append _ b (fs ++ a) front (All-append _ fs a (g.above s lt middle) back);
}

-- A leaf with another page and other entries.
abbrev pub with_page : Leaf → Page → List Entry → Leaf
with_page l page es = record l { page = page; entries = es }

-- The leaf, with what lies around it.
pub record Place (pages : ℕ → Option Page) (key : List ℕ) (h fuel id : ℕ) (leaves : List Leaf)
    : Type 1 where
  pub before : List Leaf
  pub leaf : Leaf
  pub after : List Leaf
  pub around : leaves ≡ before ++ (leaf ∷ after)
  pub is_leaf : IsLeaf pages leaf
  pub ends : descend_from fuel pages key id ≡ done (at_leaf leaf.id leaf.page)
  pub below : AllBelow key (contents before)
  pub above : AllAbove key (contents after)
  pub rebuild :
      (page : Page) (es : List Entry)
      → page.page_type ≡ PageType.leaf
      → Represents page es
      → Ascending es
      → Grows key leaf.entries es
      → Absent leaf.id before
      → Absent leaf.id after
      → Tree (put_page leaf.id page pages) h id (before ++ (with_page leaf page es ∷ after))

put_here : (id : ℕ) (page : Page) (pages : ℕ → Option Page) → put_page id page pages id ≡ some page
put_here id page pages = ground arith

regroup : (a b m c : List Leaf) → a ++ ((b ++ m) ++ c) ≡ (a ++ b) ++ (m ++ c)
regroup a b m c = ap (a ++◌) (append_assoc b m c) ∙ sym (append_assoc a b (m ++ c))

-- What grows is the contents of the leaf.
Grows-contents :
    (key : List ℕ) (before : List Leaf) (l : Leaf) (after : List Leaf) (page : Page)
    (es : List Entry)
    → Grows key l.entries es
    → Grows key
        (contents (before ++ (l ∷ after)))
        (contents (before ++ (with_page l page es ∷ after)))
Grows-contents key before l after page es g =
    subst (λ x. Grows key x (contents (before ++ (with_page l page es ∷ after))))
      (sym (contents-append before (l ∷ after)))
      (subst (Grows key (contents before ++ (l.entries ++ contents after)))
        (sym (contents-append before (with_page l page es ∷ after)))
        (Grows-around key (contents before) l.entries es (contents after) g))

module _ (pages : ℕ → Option Page) (key : List ℕ) where
  Place-leaf :
      (fuel id : ℕ) (leaves : List Leaf)
      → Tree pages zero id leaves
      → Place pages key zero (suc fuel) id leaves
  Place-leaf fuel id leaves (l, single, at, is_leaf) = record {
    before = [];
    leaf = l;
    after = [];
    around = single;
    is_leaf = is_leaf;
    ends =
        leaf_step pages key fuel id l.page (ap pages (sym at) ∙ is_leaf.there) is_leaf.kind
        ∙ ap (λ i. done (at_leaf i l.page)) (sym at);
    below = tt;
    above = tt;
    rebuild = λ page es kind holds sorted grows before after. (
      with_page l page es,
      refl,
      at,
      record {
        id_set = is_leaf.id_set;
        there = put_here l.id page pages;
        kind = kind;
        holds = holds;
        sorted = sorted;
      },
    );
  }

  pub Tree-Place :
      (h fuel id : ℕ) (leaves : List Leaf)
      → h < fuel
      → Tree pages h id leaves
      → Place pages key h fuel id leaves
  Tree-Place zero zero id leaves enough t = absurd (omega arith)
  Tree-Place (suc h) zero id leaves enough t = absurd (omega arith)
  Tree-Place zero (suc fuel) id leaves enough t = Place-leaf fuel id leaves t
  Tree-Place (suc h) (suc fuel) id leaves enough t =
      let (r, found, first) =
        result_of (find_key_position t.page key) (IsFirstNotBelow t.seps key)
          (find_key_position-IsFirstNotBelow t.page t.seps t.holds t.sorted key) in
      let child = child_of t.seps r t.page.next_page_id in
      let slot =
        Slot-of (Tree pages h) key t.page.next_page_id t.seps t.parts t.last r t.children
          t.rightmost t.routed first in
      let toward = child_toward-child_of t.page t.seps key r t.holds found first.inside in
      let p = Tree-Place h fuel child slot.inside (omega arith) slot.subtree in
      record {
        before = slot.before ++ p.before;
        leaf = p.leaf;
        after = p.after ++ slot.after;
        around =
            t.leaves_are
            ∙ slot.around
            ∙ ap (λ l. slot.before ++ (l ++ slot.after)) p.around
            ∙ regroup slot.before p.before (p.leaf ∷ p.after) slot.after;
        is_leaf = p.is_leaf;
        ends = node_step pages key fuel id child t.page t.there t.kind toward ∙ p.ends;
        below =
            subst (AllBelow key) (sym (contents-append slot.before p.before))
              (All-append _ (contents slot.before) (contents p.before) slot.below p.below);
        above =
            subst (AllAbove key) (sym (contents-append p.after slot.after))
              (All-append _ (contents p.after) (contents slot.after) p.above slot.above);
        rebuild = λ page es kind holds sorted grows before after.
            let (before_slot, before_leaf) = Absent-split p.leaf.id slot.before p.before before in
            let (after_leaf, after_slot) = Absent-split p.leaf.id p.after slot.after after in
            let inner = p.rebuild page es kind holds sorted grows before_leaf after_leaf in
            let leaf' = with_page p.leaf page es in
            let pages' = put_page p.leaf.id page pages in
            let (parts, last, children, rightmost, routed, leaves_are) =
              slot.rebuild (Tree pages' h) p.leaf.id (p.before ++ (leaf' ∷ p.after))
                (Tree-Absent pages p.leaf.id p.leaf.page page p.is_leaf.there p.is_leaf.kind h)
                before_slot after_slot inner
                (subst (λ ls. Grows key (contents ls) (contents (p.before ++ (leaf' ∷ p.after))))
                  (sym p.around) (Grows-contents key p.before p.leaf p.after page es grows)) in
            record {
              page = t.page;
              seps = t.seps;
              parts = parts;
              last = last;
              id_set = t.id_set;
              there =
                  other_page pages p.leaf.id p.leaf.page page p.is_leaf.there p.is_leaf.kind id (
                    node_other pages p.leaf.id p.leaf.page page p.is_leaf.there p.is_leaf.kind id
                      t.page t.there t.kind)
                  ∙ t.there;
              kind = t.kind;
              holds = t.holds;
              sorted = t.sorted;
              children = children;
              rightmost = rightmost;
              routed = routed;
              leaves_are =
                  sym (regroup slot.before p.before (leaf' ∷ p.after) slot.after) ∙ leaves_are;
            };
      }
