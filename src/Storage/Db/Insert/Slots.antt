-- ===== src/Storage/Db/Insert/Slots.antt =====
-- An internal page of storage/src/db.c around the child that a key leads to: what is put in the
-- child's place makes it a well-formed page again.
use Prim.Native.Nat.{Ordering}
use codo.Prelude.{
  ℕ, zero, suc, ◌≡◌, ◌≢◌, refl, ◌∙◌, ap, sym, subst, List, [], ◌∷◌, ◌++◌, arith, append_nil,
}
use mathlib.Core.List.{append_assoc}
use codo.Storage.Page.Entries.{Entry}
use codo.Storage.Page.Keys.{lex}
use codo.Storage.Page.Search.{IsFirstNotBelow}
use codo.Storage.Db.Tree.{
  Leaf, contents, contents-append, flat, AllBelow, AllUpTo, AllAbove, All-append, All-mono, Routed,
  Children,
}
use codo.Storage.Db.Descend.{lt_of_up_to, lt_of_not_below, child_of, IsFirst-tail}
use codo.Storage.Db.Frame.{All-split}
use codo.Storage.Db.Links.{Absent}

-- The second list holds no entries outside the bounds of the first but, at most, ones with the key.
pub record Grows (key : List ℕ) (es fs : List Entry) : Type 0 where
  pub up_to : (s : List ℕ) → lex s key ≢ Ordering.lt → AllUpTo s es → AllUpTo s fs
  pub above : (s : List ℕ) → lex s key ≡ Ordering.lt → AllAbove s es → AllAbove s fs

pub Absent-split : (id : ℕ) (ls ms : List Leaf) → Absent id (ls ++ ms) → Absent id ls × Absent id ms
Absent-split id [] ms h = (tt, h)
Absent-split id (l ∷ ls) ms h = let (a, b) = Absent-split id ls ms h.1 in ((h.0, a), b)

-- Leaves, with those in the middle replaced.
above_grown :
    (key s : List ℕ) (before inside inside' after : List Leaf)
    → lex s key ≡ Ordering.lt
    → Grows key (contents inside) (contents inside')
    → AllAbove s (contents (before ++ (inside ++ after)))
    → AllAbove s (contents (before ++ (inside' ++ after)))
above_grown key s before inside inside' after lt grows h =
    let split = subst (AllAbove s) (contents-append before (inside ++ after)) h in
    let (front, rest) = All-split _ (contents before) (contents (inside ++ after)) split in
    let (middle, back) =
      All-split _ (contents inside) (contents after)
        (subst (AllAbove s) (contents-append inside after) rest) in
    subst (AllAbove s) (sym (contents-append before (inside' ++ after))) (
      All-append _ (contents before) (contents (inside' ++ after)) front (
        subst (AllAbove s) (sym (contents-append inside' after))
          (All-append _ (contents inside') (contents after) (grows.above s lt middle) back)))

-- The parts of an internal page with separators `seps` and rightmost child `next`.
abbrev pub Parts : (ℕ → List Leaf → Type 0) → List Entry → ℕ → List Leaf → Type 0
Parts T seps next leaves =
    (parts : List (List Leaf)) × (last : List Leaf) × Children T seps parts
    × T next last
    × Routed seps parts last
    × (leaves ≡ flat parts last)

-- The place of the child that the key leads to.
pub record Slot (T : ℕ → List Leaf → Type 0) (key : List ℕ) (seps : List Entry) (next child : ℕ)
    (leaves : List Leaf) : Type 1 where
  pub before : List Leaf
  pub inside : List Leaf
  pub after : List Leaf
  pub around : leaves ≡ before ++ (inside ++ after)
  pub subtree : T child inside
  pub below : AllBelow key (contents before)
  pub above : AllAbove key (contents after)
  pub rebuild :
      (U : ℕ → List Leaf → Type 0) (id : ℕ) (inside' : List Leaf)
      → ((i : ℕ) (ls : List Leaf) → T i ls → Absent id ls → U i ls)
      → Absent id before
      → Absent id after
      → U child inside'
      → Grows key (contents inside) (contents inside')
      → Parts U seps next (before ++ (inside' ++ after))

pub others :
    (T U : ℕ → List Leaf → Type 0) (id : ℕ)
    → ((i : ℕ) (ls : List Leaf) → T i ls → Absent id ls → U i ls)
    → (seps : List Entry) (parts : List (List Leaf)) (last : List Leaf) (next : ℕ)
    → Children T seps parts
    → T next last
    → Absent id (flat parts last)
    → Children U seps parts × U next last
others T U id same [] [] last next c t absent = (tt, same next last t absent)
others T U id same [] (p ∷ parts) last next c t absent = absurd c
others T U id same (s ∷ seps) [] last next c t absent = absurd c
others T U id same (s ∷ seps) (p ∷ parts) last next c t absent =
    let (here, rest) = Absent-split id p (flat parts last) absent in
    let (children, rightmost) = others T U id same seps parts last next c.1 t rest in
    ((same s.child p c.0 here, children), rightmost)

pub Slot-of :
    (T : ℕ → List Leaf → Type 0) (key : List ℕ) (next : ℕ) (seps : List Entry)
    (parts : List (List Leaf)) (last : List Leaf) (r : ℕ)
    → Children T seps parts
    → T next last
    → Routed seps parts last
    → IsFirstNotBelow seps key r
    → Slot T key seps next (child_of seps r next) (flat parts last)
Slot-of T key next [] [] last r children rightmost routed first = record {
  before = [];
  inside = last;
  after = [];
  around = sym (append_nil last);
  subtree = rightmost;
  below = tt;
  above = tt;
  rebuild =
      λ U id inside' same before after here grows. ([], inside', tt, here, tt, append_nil inside');
}
Slot-of T key next [] (p ∷ parts) last r children rightmost routed first = absurd children
Slot-of T key next (s ∷ seps) [] last r children rightmost routed first = absurd children
Slot-of T key next (s ∷ seps) (p ∷ parts) last zero children rightmost routed first =
    let not_below = first.above 0 s (omega arith) refl in
    record {
      before = [];
      inside = p;
      after = flat parts last;
      around = refl;
      subtree = children.0;
      below = tt;
      above =
          All-mono _ _ (contents (flat parts last))
            (λ e h. lt_of_not_below s.key e.key key not_below h) routed.1;
      rebuild = λ U id inside' same before after here grows.
          let (children', rightmost') =
            others T U id same seps parts last next children.1 rightmost after in
          (
            inside' ∷ parts,
            last,
            (here, children'),
            rightmost',
            (grows.up_to s.key not_below routed.0, routed.1, routed.2),
            refl,
          );
    }
Slot-of T key next (s ∷ seps) (p ∷ parts) last (suc r) children rightmost routed first =
    let lt = first.below 0 s (omega arith) refl in
    let rest =
      Slot-of T key next seps parts last r children.1 rightmost routed.2
        (IsFirst-tail s seps key r first) in
    record {
      before = p ++ rest.before;
      inside = rest.inside;
      after = rest.after;
      around =
          ap (p ++◌) rest.around ∙ sym (append_assoc p rest.before (rest.inside ++ rest.after));
      subtree = rest.subtree;
      below = subst (AllBelow key) (sym (contents-append p rest.before)) (
          All-append _ (contents p) (contents rest.before)
            (All-mono _ _ (contents p) (λ e h. lt_of_up_to s.key e.key key lt h) routed.0)
            rest.below);
      above = rest.above;
      rebuild = λ U id inside' same before after here grows.
          let (before_p, before_rest) = Absent-split id p rest.before before in
          let (parts', last', children', rightmost', routed', leaves_are) =
            rest.rebuild U id inside' same before_rest after here grows in
          let grown : AllAbove s.key (contents (flat parts' last')) =
            subst (λ ls. AllAbove s.key (contents ls)) leaves_are
              (above_grown key s.key rest.before rest.inside inside' rest.after lt grows
                (subst (λ ls. AllAbove s.key (contents ls)) rest.around routed.1)) in
          (
            p ∷ parts',
            last',
            (same s.child p children.0 before_p, children'),
            rightmost',
            (routed.0, grown, routed'),
            append_assoc p rest.before (inside' ++ rest.after) ∙ ap (p ++◌) leaves_are,
          );
    }
