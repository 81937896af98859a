-- ===== src/Storage/Db/Prefix.antt =====
-- The range of keys that extend a prefix, which ends the scan of storage/src/db.c.
use Prim.Native.Nat.{Ordering}
use codo.Prelude.{
  ℕ, ◌≡◌, ◌≢◌, refl, Bool, true, false, ◌&&◌, ◌||◌, not, List, [], ◌∷◌, ◌++◌, arith, length, ltb,
  ◌==◌, if◌then◌else◌,
}
use codo.Storage.Page.{memcmp}
use codo.Storage.Page.Entries.{Entry}
use codo.Storage.Page.Keys.{lex}
use codo.Storage.Db.{is_eq, past_prefix}
use codo.Storage.Db.Tree.{All, AllBelow}

-- The key starts with the prefix.
unfoldable pub extends : List ℕ → List ℕ → Bool
extends [] key = true
extends (p ∷ prefix) [] = false
extends (p ∷ prefix) (k ∷ key) = p == k && extends prefix key

test_of_extends :
    (prefix key : List ℕ)
    → (ltb (length key) (length prefix) || not (is_eq (memcmp key prefix (length prefix))))
      ≡ not (extends prefix key)
unfolding extends memcmp
test_of_extends [] [] = refl
test_of_extends [] (k ∷ key) = ground arith
test_of_extends (p ∷ prefix) [] = ground arith
test_of_extends (p ∷ prefix) (k ∷ key) = ground (arith, test_of_extends prefix key)

pub past_prefix-extends : (prefix key : List ℕ) → past_prefix prefix key ≡ not (extends prefix key)
unfolding past_prefix extends
past_prefix-extends [] key = ground arith
past_prefix-extends (p ∷ prefix) key = ground (arith, test_of_extends (p ∷ prefix) key)

-- A key below the prefix does not extend it.
pub extends_below :
    (prefix key : List ℕ) → lex key prefix ≡ Ordering.lt → extends prefix key ≡ false
unfolding extends lex
extends_below [] [] h = cc
extends_below [] (k ∷ key) h = cc
extends_below (p ∷ prefix) [] h = refl
extends_below (p ∷ prefix) (k ∷ key) h = ground (arith, extends_below prefix key)

-- Above a key that is past the range no key extends the prefix.
pub extends_past :
    (prefix key f : List ℕ)
    → lex key prefix ≢ Ordering.lt
    → extends prefix key ≡ false
    → lex key f ≡ Ordering.lt
    → extends prefix f ≡ false
unfolding extends lex
extends_past [] key f nb past lt = cc
extends_past (p ∷ prefix) [] f nb past lt = absurd (nb refl)
extends_past (p ∷ prefix) (k ∷ key) [] nb past lt = refl
extends_past (p ∷ prefix) (k ∷ key) (x ∷ f) nb past lt = ground (arith, extends_past prefix key f)

-- The entries whose key extends the prefix, in order.
unfoldable pub with_prefix : List ℕ → List Entry → List Entry
with_prefix prefix [] = []
with_prefix prefix (e ∷ es) =
    let rest = with_prefix prefix es in if extends prefix e.key then e ∷ rest else rest

pub with_prefix_none :
    (prefix : List ℕ) (es : List Entry)
    → All (λ e. extends prefix e.key ≡ false) es
    → with_prefix prefix es ≡ []
unfolding with_prefix
with_prefix_none prefix [] h = refl
with_prefix_none prefix (e ∷ es) h = rw (h.0) (with_prefix_none prefix es h.1)

pub with_prefix-below :
    (prefix : List ℕ) (es fs : List Entry)
    → AllBelow prefix es
    → with_prefix prefix (es ++ fs) ≡ with_prefix prefix fs
unfolding with_prefix
with_prefix-below prefix [] fs h = refl
with_prefix-below prefix (e ∷ es) fs h =
    rw (extends_below prefix e.key h.0) (with_prefix-below prefix es fs h.1)
