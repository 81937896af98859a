-- ===== src/Storage/Db/Tree.antt =====
-- What a well-formed tree of storage/src/db.c holds: the separators of an internal page route to
-- its children, and `next_page_id` is the rightmost one.
use Prim.Native.Nat.{Ordering}
use codo.Prelude.{ℕ, zero, suc, ◌≡◌, ◌≢◌, refl, ◌∙◌, ap, sym, Option, some, List, [], ◌∷◌, ◌++◌}
use mathlib.Core.List.{append_assoc}
use codo.Storage.Page.{Page, PageType}
use codo.Storage.Page.Entries.{Entry, Represents}
use codo.Storage.Page.Keys.{lex}
use codo.Storage.Page.Search.{Ascending}

pub record Leaf : Type 0 where
  pub id : ℕ
  pub page : Page
  pub entries : List Entry

-- A leaf as the pager gives it; 0 is no page of a tree.
pub record IsLeaf (pages : ℕ → Option Page) (l : Leaf) : Type 0 where
  pub id_set : l.id ≢ 0
  pub there : pages l.id ≡ some l.page
  pub kind : l.page.page_type ≡ PageType.leaf
  pub holds : Represents l.page l.entries
  pub sorted : Ascending l.entries

abbrev pub contents : List Leaf → List Entry
contents [] = []
contents (l ∷ ls) = l.entries ++ contents ls

abbrev pub flat : List (List Leaf) → List Leaf → List Leaf
flat [] last = last
flat (p ∷ parts) last = p ++ flat parts last

abbrev pub All : (Entry → Type 0) → List Entry → Type 0
All P [] = Unit
All P (e ∷ es) = P e × All P es

-- Every key is below `k`, at most `k`, above `k`.
abbrev pub AllBelow : List ℕ → List Entry → Type 0
AllBelow k es = All (λ e. lex e.key k ≡ Ordering.lt) es

abbrev pub AllUpTo : List ℕ → List Entry → Type 0
AllUpTo k es = All (λ e. lex k e.key ≢ Ordering.lt) es

abbrev pub AllAbove : List ℕ → List Entry → Type 0
AllAbove k es = All (λ e. lex k e.key ≡ Ordering.lt) es

-- A separator is the highest key that its child may hold; what follows is above it.
abbrev pub Routed : List Entry → List (List Leaf) → List Leaf → Type 0
Routed [] parts last = Unit
Routed (s ∷ seps) [] last = ⊥
Routed (s ∷ seps) (p ∷ parts) last =
    AllUpTo s.key (contents p)
    × AllAbove s.key (contents (flat parts last))
    × Routed seps parts last

-- The subtrees of the separators.
abbrev pub Children : (ℕ → List Leaf → Type 0) → List Entry → List (List Leaf) → Type 0
Children T [] [] = Unit
Children T [] (p ∷ parts) = ⊥
Children T (s ∷ seps) [] = ⊥
Children T (s ∷ seps) (p ∷ parts) = T s.child p × Children T seps parts

-- An internal page whose subtrees satisfy `T`.
pub record Node (pages : ℕ → Option Page) (T : ℕ → List Leaf → Type 0) (id : ℕ) (leaves : List Leaf)
    : Type 0 where
  pub page : Page
  pub seps : List Entry
  pub parts : List (List Leaf)
  pub last : List Leaf
  pub id_set : id ≢ 0
  pub there : pages id ≡ some page
  pub kind : page.page_type ≡ PageType.internal
  pub holds : Represents page seps
  pub sorted : Ascending seps
  pub children : Children T seps parts
  pub rightmost : T page.next_page_id last
  pub routed : Routed seps parts last
  pub leaves_are : leaves ≡ flat parts last

-- The tree of a height at a page, with its leaves from left to right.
abbrev pub Tree : (ℕ → Option Page) → ℕ → ℕ → List Leaf → Type 0
Tree pages zero id leaves = (l : Leaf) × (leaves ≡ l ∷ []) × (l.id ≡ id) × IsLeaf pages l
Tree pages (suc h) id leaves = Node pages (Tree pages h) id leaves

pub All-append : (P : Entry → Type 0) (es fs : List Entry) → All P es → All P fs → All P (es ++ fs)
All-append P [] fs h k = k
All-append P (e ∷ es) fs h k = (h.0, All-append P es fs h.1 k)

pub All-mono :
    (P Q : Entry → Type 0) (es : List Entry) → ((e : Entry) → P e → Q e) → All P es → All Q es
All-mono P Q [] f h = tt
All-mono P Q (e ∷ es) f h = (f e h.0, All-mono P Q es f h.1)

pub contents-append : (ls ms : List Leaf) → contents (ls ++ ms) ≡ contents ls ++ contents ms
contents-append [] ms = refl
contents-append (l ∷ ls) ms =
    ap (◌++◌ l.entries) (contents-append ls ms)
    ∙ sym (append_assoc l.entries (contents ls) (contents ms))
