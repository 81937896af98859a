-- ===== src/Storage/Db/Descend.antt =====
-- In a well-formed tree the descent of storage/src/db.c ends at the leaf that owns the key.
use Prim.Native.Nat.{Ordering}
use codo.Prelude.{
  ℕ, zero, suc, ◌≤◌, ◌<◌, ◌≡◌, ◌≢◌, refl, ◌∙◌, ap, sym, subst, inl, inr, Option, some, List, [],
  ◌∷◌, ◌++◌, arith, length, get_elem?, get_elem?_in, append_nil,
}
use mathlib.Core.List.{append_assoc}
use native.Mathlib.Decide.{dec_lt}
use codo.Storage.Memory.{Run, done, fault, Ensures, Ensures-mono}
use codo.Storage.Page.{Page, PageType, find_key_position, get_kv_pair}
use codo.Storage.Page.Entries.{Entry, Represents}
use codo.Storage.Page.Keys.{lex, Ordering-cases, eq_of_lex, lex-gt→lt, lex_trans}
use codo.Storage.Page.Search.{IsFirstNotBelow, find_key_position-IsFirstNotBelow}
use codo.Storage.Page.Reads.{get_kv_pair-offset_of}
use codo.Storage.Page.Split.Parts.{load_head_at}
use codo.Storage.Db.{child_or_next, child_toward, Descent, at_leaf, descend_from}
use codo.Storage.Db.Tree.{
  Leaf, IsLeaf, contents, flat, AllBelow, AllAbove, All-append, All-mono, Routed, Children, Tree,
  contents-append,
}

-- Two facts on the order of keys around a separator.
pub lt_of_up_to :
    (s e key : List ℕ) → lex s key ≡ Ordering.lt → lex s e ≢ Ordering.lt → lex e key ≡ Ordering.lt
lt_of_up_to s e key below up = elim (Ordering-cases (lex s e)) [
  | inl lt ↦ absurd (up lt)
  | inr (inl eq) ↦ subst (λ k. lex k key ≡ Ordering.lt) (eq_of_lex s e eq) below
  | inr (inr gt) ↦ lex_trans e s key (lex-gt→lt s e gt) below
]

pub lt_of_not_below :
    (s e key : List ℕ) → lex s key ≢ Ordering.lt → lex s e ≡ Ordering.lt → lex key e ≡ Ordering.lt
lt_of_not_below s e key nb above = elim (Ordering-cases (lex s key)) [
  | inl lt ↦ absurd (nb lt)
  | inr (inl eq) ↦ subst (λ k. lex k e ≡ Ordering.lt) (eq_of_lex s key eq) above
  | inr (inr gt) ↦ lex_trans key s e (lex-gt→lt s key gt) above
]

-- The child at a position of the separators.
abbrev pub child_of : List Entry → ℕ → ℕ → ℕ
child_of [] r next = next
child_of (s ∷ seps) zero next = s.child
child_of (s ∷ seps) (suc r) next = child_of seps r next

child_of-get :
    (seps : List Entry) (r next : ℕ) {e : Entry}
    → get_elem? seps r ≡ some e
    → child_of seps r next ≡ e.child
child_of-get [] r next h = absurd (ground arith)
child_of-get (s ∷ seps) zero next h = ground arith
child_of-get (s ∷ seps) (suc r) next h = child_of-get seps r next h

child_of-end : (seps : List Entry) (r next : ℕ) → r ≡ length seps → child_of seps r next ≡ next
child_of-end [] r next h = refl
child_of-end (s ∷ seps) zero next h = absurd (omega arith)
child_of-end (s ∷ seps) (suc r) next h = child_of-end seps r next (omega arith)

-- What the separators say of the leaves around the child at position `r`.
pub record Owned (T : ℕ → List Leaf → Type 0) (key : List ℕ) (child : ℕ) (leaves : List Leaf)
    : Type 0 where
  pub before : List Leaf
  pub inside : List Leaf
  pub after : List Leaf
  pub around : leaves ≡ before ++ (inside ++ after)
  pub subtree : T child inside
  pub below : AllBelow key (contents before)
  pub above : AllAbove key (contents after)

pub IsFirst-tail :
    (s : Entry) (seps : List Entry) (key : List ℕ) (r : ℕ)
    → IsFirstNotBelow (s ∷ seps) key (suc r)
    → IsFirstNotBelow seps key r
IsFirst-tail s seps key r f = record {
  inside = omega (arith, f.inside);
  below = λ i e lt. f.below (suc i) e (omega arith);
  above = λ i e le. f.above (suc i) e (omega arith);
}

pub route :
    (T : ℕ → List Leaf → Type 0) (key : List ℕ) (next : ℕ) (seps : List Entry)
    (parts : List (List Leaf)) (last : List Leaf) (r : ℕ)
    → Children T seps parts
    → T next last
    → Routed seps parts last
    → IsFirstNotBelow seps key r
    → Owned T key (child_of seps r next) (flat parts last)
route T key next [] [] last r children rightmost routed first = record {
  before = [];
  inside = last;
  after = [];
  around = sym (append_nil last);
  subtree = rightmost;
  below = tt;
  above = tt;
}
route T key next [] (p ∷ parts) last r children rightmost routed first = absurd children
route T key next (s ∷ seps) [] last r children rightmost routed first = absurd children
route T key next (s ∷ seps) (p ∷ parts) last zero children rightmost routed first = record {
  before = [];
  inside = p;
  after = flat parts last;
  around = refl;
  subtree = children.0;
  below = tt;
  above =
      All-mono _ _ (contents (flat parts last))
        (λ e h. lt_of_not_below s.key e.key key (first.above 0 s (omega arith) refl) h) routed.1;
}
route T key next (s ∷ seps) (p ∷ parts) last (suc r) children rightmost routed first =
    let rest =
      route T key next seps parts last r children.1 rightmost routed.2
        (IsFirst-tail s seps key r first) in
    record {
      before = p ++ rest.before;
      inside = rest.inside;
      after = rest.after;
      around =
          ap (p ++◌) rest.around ∙ sym (append_assoc p rest.before (rest.inside ++ rest.after));
      subtree = rest.subtree;
      below = subst (AllBelow key) (sym (contents-append p rest.before)) (
          All-append _ (contents p) (contents rest.before)
            (All-mono _ _ (contents p)
              (λ e h. lt_of_up_to s.key e.key key (first.below 0 s (omega arith) refl) h) routed.0)
            rest.below);
      above = rest.above;
    }

-- A run that is ensured has a result.
pub result_of {ℓ} :
    {A : Type ℓ} (m : Run A) (P : A → Type 0) → Ensures m P → (a : A) × (m ≡ done a) × P a
result_of (done a) P h = (a, refl, h)
result_of fault P h = absurd h

-- On an internal page the descent takes the child at the search position.
pub child_toward-child_of :
    (page : Page) (seps : List Entry) (key : List ℕ) (r : ℕ)
    → Represents page seps
    → find_key_position page key ≡ done r
    → r ≤ length seps
    → child_toward page key ≡ done (child_of seps r page.next_page_id)
unfolding child_toward child_or_next get_kv_pair
child_toward-child_of page seps key r holds found inside = elim (dec_lt r (length seps)) [
  | yes lt ↦
      let (e, at) = get_elem?_in seps r lt in
      ground (
        arith,
        get_kv_pair-offset_of page seps holds r lt,
        load_head_at page seps holds r at,
        child_of-get seps r page.next_page_id at,
      )
  | no past ↦
      let end : r ≡ length seps = omega arith in
      ground (arith, holds.counted, child_of-end seps r page.next_page_id end)
]

-- The leaf that owns a key, with what lies to its left and right.
pub record Reached (pages : ℕ → Option Page) (key : List ℕ) (leaves : List Leaf) (d : Descent)
    : Type 0 where
  pub before : List Leaf
  pub leaf : Leaf
  pub after : List Leaf
  pub around : leaves ≡ before ++ (leaf ∷ after)
  pub is_leaf : IsLeaf pages leaf
  pub ends : d ≡ at_leaf leaf.id leaf.page
  pub below : AllBelow key (contents before)
  pub above : AllAbove key (contents after)

Reached-wider :
    (pages : ℕ → Option Page) (key : List ℕ) (T : ℕ → List Leaf → Type 0) (child : ℕ)
    (leaves : List Leaf) (d : Descent)
    → (o : Owned T key child leaves) → Reached pages key o.inside d
    → Reached pages key leaves d
Reached-wider pages key T child leaves d o r = record {
  before = o.before ++ r.before;
  leaf = r.leaf;
  after = r.after ++ o.after;
  around =
      o.around
      ∙ ap (λ l. o.before ++ (l ++ o.after)) r.around
      ∙ ap (o.before ++◌) (append_assoc r.before (r.leaf ∷ r.after) o.after)
      ∙ sym (append_assoc o.before r.before (r.leaf ∷ (r.after ++ o.after)));
  is_leaf = r.is_leaf;
  ends = r.ends;
  below =
      subst (AllBelow key) (sym (contents-append o.before r.before))
        (All-append _ (contents o.before) (contents r.before) o.below r.below);
  above =
      subst (AllAbove key) (sym (contents-append r.after o.after))
        (All-append _ (contents r.after) (contents o.after) r.above o.above);
}

module _ (pages : ℕ → Option Page) (key : List ℕ) where
  pub leaf_step :
      (fuel id : ℕ) (page : Page)
      → pages id ≡ some page
      → page.page_type ≡ PageType.leaf
      → descend_from (suc fuel) pages key id ≡ done (at_leaf id page)
  unfolding descend_from
  leaf_step fuel id page there kind = ground arith

  pub node_step :
      (fuel id child : ℕ) (page : Page)
      → pages id ≡ some page
      → page.page_type ≡ PageType.internal
      → child_toward page key ≡ done child
      → descend_from (suc fuel) pages key id ≡ descend_from fuel pages key child
  unfolding descend_from
  node_step fuel id child page there kind toward = ground arith

  -- In a tree of height `h`, with fuel above it, the descent ends without a fault at a leaf of the
  -- tree: all keys in the leaves before it are below the key, and all in those after it above.
  pub descend_from-Reached :
      (h fuel id : ℕ) (leaves : List Leaf)
      → h < fuel
      → Tree pages h id leaves
      → Ensures (descend_from fuel pages key id) (Reached pages key leaves)
  descend_from-Reached zero zero id leaves enough t = absurd (omega arith)
  descend_from-Reached (suc h) zero id leaves enough t = absurd (omega arith)
  descend_from-Reached zero (suc fuel) id leaves enough (l, single, at, is_leaf) =
      rw (leaf_step fuel id l.page (ap pages (sym at) ∙ is_leaf.there) is_leaf.kind) (record {
        before = [];
        leaf = l;
        after = [];
        around = single;
        is_leaf = is_leaf;
        ends = ap (λ i. at_leaf i l.page) (sym at);
        below = tt;
        above = tt;
      })
  descend_from-Reached (suc h) (suc fuel) id leaves enough t =
      let (r, found, first) =
        result_of (find_key_position t.page key) (IsFirstNotBelow t.seps key)
          (find_key_position-IsFirstNotBelow t.page t.seps t.holds t.sorted key) in
      let child = child_of t.seps r t.page.next_page_id in
      let o =
        route (Tree pages h) key t.page.next_page_id t.seps t.parts t.last r t.children t.rightmost
          t.routed first in
      let toward = child_toward-child_of t.page t.seps key r t.holds found first.inside in
      let deeper = descend_from-Reached h fuel child o.inside (omega arith) o.subtree in
      rw (node_step fuel id child t.page t.there t.kind toward) (
        Ensures-mono (descend_from fuel pages key child) (Reached pages key o.inside)
          (Reached pages key leaves)
          (λ d reached.
            subst (λ ls. Reached pages key ls d) (sym t.leaves_are)
              (Reached-wider pages key (Tree pages h) child (flat t.parts t.last) d o reached))
          deeper)
