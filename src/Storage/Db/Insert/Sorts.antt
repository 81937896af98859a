-- ===== src/Storage/Db/Insert/Sorts.antt =====
-- The list of entries with one more, in the order of the keys: what an insertion of
-- storage/src/db.c leaves on a leaf and in the tree.
use Prim.Native.Nat.{Ordering}
use codo.Prelude.{
  ℕ, zero, suc, ◌+◌, ◌<◌, ◌≡◌, ◌≢◌, refl, ◌∙◌, ap, sym, subst, inl, inr, none, some, List, [], ◌∷◌,
  ◌++◌, arith, take, drop, get_elem?, take-append-drop,
}
use mathlib.Core.List.{append_assoc}
use codo.Storage.Page.Entries.{Entry}
use codo.Storage.Page.Keys.{lex, Ordering-cases, lex-gt→lt, lex-lt→gt}
use codo.Storage.Page.Search.{Ascending, IsFirstNotBelow}
use codo.Storage.Db.Tree.{All, AllBelow, AllAbove, All-append}
use codo.Storage.Db.Values.{get_elem?-drop, All-get, All-at}
use codo.Storage.Db.Search.{lookup, below_first}
use codo.Storage.Db.Chain.{Sorted, Sorted-of_Ascending}
use codo.Storage.Db.Insert.Slots.{Grows}

unfoldable pub with_entry : Entry → List Entry → List Entry
with_entry e [] = e ∷ []
with_entry e (f ∷ fs) = elim (lex e.key f.key) [
  | Ordering.lt ↦ e ∷ f ∷ fs
  | _ ↦ f ∷ with_entry e fs
]

pub with_entry-below :
    (e : Entry) (es fs : List Entry)
    → AllBelow e.key es
    → with_entry e (es ++ fs) ≡ es ++ with_entry e fs
unfolding with_entry
with_entry-below e [] fs h = refl
with_entry-below e (f ∷ es) fs h =
    ground (arith, lex-lt→gt f.key e.key h.0, with_entry-below e es fs h.1)

pub with_entry-above : (e : Entry) (fs : List Entry) → AllAbove e.key fs → with_entry e fs ≡ e ∷ fs
unfolding with_entry
with_entry-above e [] h = refl
with_entry-above e (f ∷ fs) h = let above = h.0 in ground arith

-- The entries from the search position on are above a key that is missing.
pub lookup-found :
    (key : List ℕ) (es : List Entry) (i : ℕ) {f : Entry}
    → get_elem? es i ≡ some f
    → lex key f.key ≡ Ordering.eq
    → lookup key es ≢ none
unfolding lookup
lookup-found key [] i at same gone = absurd (ground arith)
lookup-found key (g ∷ es) zero at same gone = absurd (ground arith)
lookup-found key (g ∷ es) (suc i) at same gone = elim (Ordering-cases (lex key g.key)) [
  | inl less ↦ lookup-found key es i at same (ground arith)
  | inr (inl eq) ↦ absurd (ground arith)
  | inr (inr gt) ↦ lookup-found key es i at same (ground arith)
]

pub above_rest :
    (es : List Entry) (key : List ℕ) (r : ℕ)
    → IsFirstNotBelow es key r
    → lookup key es ≡ none
    → AllAbove key (drop r es)
above_rest es key r first gone = All-get _ (drop r es) (λ i f at.
    let there = get_elem?-drop es r i (r + i) refl at in
    elim (Ordering-cases (lex key f.key)) [
      | inl less ↦ less
      | inr (inl eq) ↦ absurd (lookup-found key es (r + i) there eq gone)
      | inr (inr gt) ↦ absurd (first.above (r + i) f (omega arith) there (lex-gt→lt key f.key gt))
    ])

-- Put in at the search position, in front of entries that are above it.
pub with_entry-middle :
    (e : Entry) (es fs : List Entry) (r : ℕ)
    → IsFirstNotBelow es e.key r
    → lookup e.key es ≡ none
    → AllAbove e.key fs
    → (take r es ++ (e ∷ drop r es)) ++ fs ≡ with_entry e (es ++ fs)
with_entry-middle e es fs r first gone above =
    append_assoc (take r es) (e ∷ drop r es) fs
    ∙ ap (take r es ++◌) (
        sym (
          with_entry-above e (drop r es ++ fs)
            (All-append _ (drop r es) fs (above_rest es e.key r first gone) above)))
    ∙ sym (with_entry-below e (take r es) (drop r es ++ fs) (below_first es e.key r first))
    ∙ ap (with_entry e)
        (sym (append_assoc (take r es) (drop r es) fs) ∙ ap (λ l. l ++ fs) (take-append-drop r es))

above_with :
    (e x : Entry) (xs ys : List Entry)
    → lex x.key e.key ≡ Ordering.lt
    → AllAbove x.key (xs ++ ys)
    → AllAbove x.key (xs ++ (e ∷ ys))
above_with e x [] ys lt h = (lt, h)
above_with e x (y ∷ xs) ys lt h = (h.0, above_with e x xs ys lt h.1)

Sorted-with :
    (e : Entry) (xs ys : List Entry)
    → AllBelow e.key xs
    → AllAbove e.key ys
    → Sorted (xs ++ ys)
    → Sorted (xs ++ (e ∷ ys))
Sorted-with e [] ys below above s = (above, s)
Sorted-with e (x ∷ xs) ys below above s =
    (above_with e x xs ys below.0 s.0, Sorted-with e xs ys below.1 above s.1)

Sorted-get :
    (es : List Entry) (i j : ℕ) (e f : Entry)
    → Sorted es
    → i < j
    → get_elem? es i ≡ some e
    → get_elem? es j ≡ some f
    → lex e.key f.key ≡ Ordering.lt
Sorted-get [] i j e f s lt at_i at_j = absurd (ground arith)
Sorted-get (g ∷ es) zero zero e f s lt at_i at_j = absurd (omega arith)
Sorted-get (g ∷ es) zero (suc j) e f s lt at_i at_j =
    let same : g ≡ e = ground arith in
    subst (λ (k : Entry). lex k.key f.key ≡ Ordering.lt) same (All-at _ es j s.0 at_j)
Sorted-get (g ∷ es) (suc i) zero e f s lt at_i at_j = absurd (omega arith)
Sorted-get (g ∷ es) (suc i) (suc j) e f s lt at_i at_j =
    Sorted-get es i j e f s.1 (omega arith) at_i at_j

All-with :
    (P : Entry → Type 0) (e : Entry) (xs ys : List Entry)
    → P e
    → All P (xs ++ ys)
    → All P (xs ++ (e ∷ ys))
All-with P e [] ys p h = (p, h)
All-with P e (x ∷ xs) ys p h = (h.0, All-with P e xs ys p h.1)

-- The entry put in at the search position: the keys ascend, and only it is new.
module _ (e : Entry) (es : List Entry) (r : ℕ) where
  pub Ascending-with :
      IsFirstNotBelow es e.key r
      → lookup e.key es ≡ none
      → Ascending es
      → Ascending (take r es ++ (e ∷ drop r es))
  Ascending-with first gone sorted i j a b lt at_i at_j =
      Sorted-get (take r es ++ (e ∷ drop r es)) i j a b
        (Sorted-with e (take r es) (drop r es) (below_first es e.key r first)
          (above_rest es e.key r first gone)
          (subst Sorted (sym (take-append-drop r es)) (Sorted-of_Ascending es sorted)))
        lt at_i at_j

  pub Grows-with : Grows e.key es (take r es ++ (e ∷ drop r es))
  Grows-with = record {
    up_to = λ s ge h.
        All-with _ e (take r es) (drop r es) ge (subst (All _) (sym (take-append-drop r es)) h);
    above = λ s lt h.
        All-with _ e (take r es) (drop r es) lt (subst (All _) (sym (take-append-drop r es)) h);
  }
