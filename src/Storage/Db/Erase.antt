-- ===== src/Storage/Db/Erase.antt =====
-- A list of entries without the one at a position, and without the one with a key: what a deletion
-- of storage/src/db.c leaves on a leaf and in the tree.
use Prim.Native.Nat.{Ordering}
use codo.Prelude.{
  ℕ, zero, suc, ◌<◌, ◌≡◌, refl, ◌∙◌, ap, ap₂, some, List, [], ◌∷◌, ◌++◌, arith, take, drop,
  get_elem?, split_at, ltb, if◌then◌else◌,
}
use codo.Storage.Page.Entries.{Entry}
use codo.Storage.Page.Keys.{lex, lex-lt→gt}
use codo.Storage.Page.Search.{Ascending, IsFirstNotBelow}
use codo.Storage.Db.Tree.{All, AllBelow, AllAbove}
use codo.Storage.Db.Search.{below_first, above_first, not_above}

abbrev pub erase_at {ℓ} : {A : Type ℓ} → ℕ → List A → List A
erase_at r xs = take r xs ++ drop (suc r) xs

pub All-erase_at : (P : Entry → Type 0) (r : ℕ) (es : List Entry) → All P es → All P (erase_at r es)
All-erase_at P zero [] h = tt
All-erase_at P zero (e ∷ es) h = h.1
All-erase_at P (suc r) [] h = tt
All-erase_at P (suc r) (e ∷ es) h = (h.0, All-erase_at P r es h.1)

-- The position that an entry of the shorter list had before.
abbrev origin : ℕ → ℕ → ℕ
origin r i = if ltb i r then i else suc i

get_elem?-erase_at {ℓ} :
    {A : Type ℓ} (r i : ℕ) (xs : List A) {x : A}
    → get_elem? (erase_at r xs) i ≡ some x
    → get_elem? xs (origin r i) ≡ some x
get_elem?-erase_at zero i [] h = absurd (ground arith)
get_elem?-erase_at zero i (y ∷ xs) h = ground arith
get_elem?-erase_at (suc r) i [] h = absurd (ground arith)
get_elem?-erase_at (suc r) zero (y ∷ xs) h = ground arith
get_elem?-erase_at (suc r) (suc i) (y ∷ xs) h = ground (arith, get_elem?-erase_at r i xs h)

origin-lt : (r i j : ℕ) → i < j → origin r i < origin r j
origin-lt r i j h = ground arith

pub Ascending-erase_at : (r : ℕ) (es : List Entry) → Ascending es → Ascending (erase_at r es)
Ascending-erase_at r es h i j a b lt at_i at_j =
    h (origin r i) (origin r j) a b (origin-lt r i j lt) (get_elem?-erase_at r i es at_i)
      (get_elem?-erase_at r j es at_j)

-- The entries whose key is another one.
unfoldable pub without : List ℕ → List Entry → List Entry
without key [] = []
without key (e ∷ es) = elim (lex key e.key) [
  | Ordering.eq ↦ without key es
  | _ ↦ e ∷ without key es
]

pub without-append :
    (key : List ℕ) (es fs : List Entry) → without key (es ++ fs) ≡ without key es ++ without key fs
unfolding without
without-append key [] fs = refl
without-append key (e ∷ es) fs = ground (arith, without-append key es fs)

pub without-below : (key : List ℕ) (es : List Entry) → AllBelow key es → without key es ≡ es
unfolding without
without-below key [] h = refl
without-below key (e ∷ es) h = ground (arith, lex-lt→gt e.key key h.0, without-below key es h.1)

pub without-above : (key : List ℕ) (es : List Entry) → AllAbove key es → without key es ≡ es
unfolding without
without-above key [] h = refl
without-above key (e ∷ es) h = let above = h.0 in ground (arith, without-above key es h.1)

-- In an ascending list the entry at the search position is the only one with its key.
pub without-erase_at :
    (es : List Entry) (key : List ℕ) (r : ℕ) (e : Entry)
    → IsFirstNotBelow es key r
    → Ascending es
    → get_elem? es r ≡ some e
    → lex key e.key ≡ Ordering.eq
    → without key es ≡ erase_at r es
unfolding without
without-erase_at es key r e first sorted at same =
    let here : without key (e ∷ drop (suc r) es) ≡ without key (drop (suc r) es) = ground arith in
    ap (without key) (split_at es r at)
    ∙ without-append key (take r es) (e ∷ drop (suc r) es)
    ∙ ap₂ ◌++◌ (without-below key (take r es) (below_first es key r first)) (
        here
        ∙ without-above key (drop (suc r) es)
            (above_first es key r first e sorted at (not_above es key r first e at)))
