-- ===== src/Storage/Db/Chain.antt =====
-- The leaves of a well-formed tree of storage/src/db.c, from left to right: their keys ascend, and
-- the sibling links chain them.
use codo.Prelude.{
  ℕ, zero, suc, ◌≡◌, ◌≢◌, refl, sym, subst, Option, List, [], ◌∷◌, ◌++◌, arith, append_nil,
}
use codo.Storage.Page.{Page}
use codo.Storage.Page.Entries.{Entry}
use codo.Storage.Page.Search.{Ascending}
use codo.Storage.Db.Tree.{
  Leaf, IsLeaf, contents, contents-append, flat, AllUpTo, AllAbove, All-append, All-mono, Routed,
  Children, Tree,
}
use codo.Storage.Db.Descend.{lt_of_not_below}
use codo.Storage.Db.Values.{All-get}

-- The keys of a list ascend strictly.
abbrev pub Sorted : List Entry → Type 0
Sorted [] = Unit
Sorted (e ∷ es) = AllAbove e.key es × Sorted es

Ascending-tail : (e : Entry) (es : List Entry) → Ascending (e ∷ es) → Ascending es
Ascending-tail e es h i j a b lt = h (suc i) (suc j) a b (omega arith)

pub Sorted-of_Ascending : (es : List Entry) → Ascending es → Sorted es
Sorted-of_Ascending [] h = tt
Sorted-of_Ascending (e ∷ es) h = (
  All-get _ es (λ i f at. h 0 (suc i) e f (omega arith) refl at),
  Sorted-of_Ascending es (Ascending-tail e es h),
)

pub Sorted-append :
    (k : List ℕ) (es fs : List Entry)
    → AllUpTo k es
    → AllAbove k fs
    → Sorted es
    → Sorted fs
    → Sorted (es ++ fs)
Sorted-append k [] fs up above s t = t
Sorted-append k (e ∷ es) fs up above s t = (
  All-append _ es fs s.0 (All-mono _ _ fs (λ f h. lt_of_not_below k f.key e.key up.0 h) above),
  Sorted-append k es fs up.1 above s.1 t,
)

abbrev pub AllLeaves : (ℕ → Option Page) → List Leaf → Type 0
AllLeaves pages [] = Unit
AllLeaves pages (l ∷ ls) = IsLeaf pages l × AllLeaves pages ls

AllLeaves-append :
    (pages : ℕ → Option Page) (ls ms : List Leaf)
    → AllLeaves pages ls
    → AllLeaves pages ms
    → AllLeaves pages (ls ++ ms)
AllLeaves-append pages [] ms h k = k
AllLeaves-append pages (l ∷ ls) ms h k = (h.0, AllLeaves-append pages ls ms h.1 k)

-- What the subtrees give, the children of a page give together.
flat-AllLeaves :
    (pages : ℕ → Option Page) (T : ℕ → List Leaf → Type 0)
    (leaves_of : (id : ℕ) (ls : List Leaf) → T id ls → AllLeaves pages ls) (seps : List Entry)
    (parts : List (List Leaf)) (last : List Leaf) (next : ℕ)
    → Children T seps parts
    → T next last
    → AllLeaves pages (flat parts last)
flat-AllLeaves pages T leaves_of [] [] last next c t = leaves_of next last t
flat-AllLeaves pages T leaves_of [] (p ∷ parts) last next c t = absurd c
flat-AllLeaves pages T leaves_of (s ∷ seps) [] last next c t = absurd c
flat-AllLeaves pages T leaves_of (s ∷ seps) (p ∷ parts) last next c t =
    AllLeaves-append pages p (flat parts last) (leaves_of s.child p c.0)
      (flat-AllLeaves pages T leaves_of seps parts last next c.1 t)

flat-Sorted :
    (T : ℕ → List Leaf → Type 0)
    (sorted_of : (id : ℕ) (ls : List Leaf) → T id ls → Sorted (contents ls)) (seps : List Entry)
    (parts : List (List Leaf)) (last : List Leaf) (next : ℕ)
    → Children T seps parts
    → T next last
    → Routed seps parts last
    → Sorted (contents (flat parts last))
flat-Sorted T sorted_of [] [] last next c t routed = sorted_of next last t
flat-Sorted T sorted_of [] (p ∷ parts) last next c t routed = absurd c
flat-Sorted T sorted_of (s ∷ seps) [] last next c t routed = absurd c
flat-Sorted T sorted_of (s ∷ seps) (p ∷ parts) last next c t routed =
    subst Sorted (sym (contents-append p (flat parts last))) (
      Sorted-append s.key (contents p) (contents (flat parts last)) routed.0 routed.1
        (sorted_of s.child p c.0) (flat-Sorted T sorted_of seps parts last next c.1 t routed.2))

pub Tree-AllLeaves :
    (pages : ℕ → Option Page) (h id : ℕ) (leaves : List Leaf)
    → Tree pages h id leaves
    → AllLeaves pages leaves
Tree-AllLeaves pages zero id leaves (l, single, at, is_leaf) =
    subst (AllLeaves pages) (sym single) (is_leaf, tt)
Tree-AllLeaves pages (suc h) id leaves t = subst (AllLeaves pages) (sym t.leaves_are) (
    flat-AllLeaves pages (Tree pages h) (Tree-AllLeaves pages h) t.seps t.parts t.last
      t.page.next_page_id t.children t.rightmost)

-- The keys of a well-formed tree ascend strictly over all its leaves.
pub Tree-Sorted :
    (pages : ℕ → Option Page) (h id : ℕ) (leaves : List Leaf)
    → Tree pages h id leaves
    → Sorted (contents leaves)
Tree-Sorted pages zero id leaves (l, single, at, is_leaf) =
    subst (λ ls. Sorted (contents ls)) (sym single)
      (subst Sorted (sym (append_nil l.entries)) (Sorted-of_Ascending l.entries is_leaf.sorted))
Tree-Sorted pages (suc h) id leaves t =
    subst (λ ls. Sorted (contents ls)) (sym t.leaves_are)
      (flat-Sorted (Tree pages h) (Tree-Sorted pages h) t.seps t.parts t.last t.page.next_page_id
        t.children t.rightmost t.routed)

-- The links of the leaves: each names the next one, and the last holds 0.
abbrev pub Linked : List Leaf → Type 0
Linked [] = Unit
Linked (l ∷ []) = l.page.next_page_id ≡ 0
Linked (l ∷ m ∷ ls) = (l.page.next_page_id ≡ m.id) × (m.id ≢ 0) × Linked (m ∷ ls)

pub Linked-suffix :
    (ls : List Leaf) (l : Leaf) (ms : List Leaf) → Linked (ls ++ (l ∷ ms)) → Linked (l ∷ ms)
Linked-suffix [] l ms h = h
Linked-suffix (k ∷ []) l ms h = h.2
Linked-suffix (k ∷ k' ∷ ls) l ms h = Linked-suffix (k' ∷ ls) l ms h.2
