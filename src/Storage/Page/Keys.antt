-- ===== src/Storage/Page/Keys.antt =====
-- `compare_keys` of storage/src/btree.c is the lexicographic order of byte strings.
use Prim.Native.Nat.{compare, Ordering}
use codo.Prelude.{
  ℕ, suc, ◌≡◌, refl, ◌∙◌, ap, sym, ◌↔◌, ◌⊎◌, inl, inr, List, [], ◌∷◌, arith, length, min,
}
use codo.Storage.Page.{memcmp, compare_keys}

unfoldable pub lex : List ℕ → List ℕ → Ordering
lex [] [] = Ordering.eq
lex [] (y ∷ ys) = Ordering.lt
lex (x ∷ xs) [] = Ordering.gt
lex (x ∷ xs) (y ∷ ys) = elim (compare x y) [
  | Ordering.lt ↦ Ordering.lt
  | Ordering.gt ↦ Ordering.gt
  | Ordering.eq ↦ lex xs ys
]

-- The comparison of the common prefix and then of the lengths is the lexicographic order.
pub compare_keys-lex : (xs ys : List ℕ) → compare_keys xs ys ≡ lex xs ys
unfolding compare_keys memcmp lex
compare_keys-lex [] [] = ground arith
compare_keys-lex [] (y ∷ ys) = ground arith
compare_keys-lex (x ∷ xs) [] = ground arith
compare_keys-lex (x ∷ xs) (y ∷ ys) =
    let shorter : min (suc (length xs)) (suc (length ys)) ≡ suc (min (length xs) (length ys)) =
      omega arith in
    rw (shorter, compare_keys) (ground (arith, compare_keys-lex xs ys))

pub Ordering-cases : (o : Ordering) → (o ≡ Ordering.lt) ⊎ (o ≡ Ordering.eq) ⊎ (o ≡ Ordering.gt)
Ordering-cases Ordering.lt = inl refl
Ordering-cases Ordering.eq = inr (inl refl)
Ordering-cases Ordering.gt = inr (inr refl)

pub eq_of_lex : (xs ys : List ℕ) → lex xs ys ≡ Ordering.eq → xs ≡ ys
unfolding lex
eq_of_lex [] [] h = refl
eq_of_lex [] (y ∷ ys) h = absurd (ground arith)
eq_of_lex (x ∷ xs) [] h = absurd (ground arith)
eq_of_lex (x ∷ xs) (y ∷ ys) h = ground (arith, eq_of_lex xs ys)

pub lex_self : (xs : List ℕ) → lex xs xs ≡ Ordering.eq
unfolding lex
lex_self [] = refl
lex_self (x ∷ xs) = ground (arith, lex_self xs)

pub lex-gt→lt : (xs ys : List ℕ) → lex xs ys ≡ Ordering.gt → lex ys xs ≡ Ordering.lt
unfolding lex
lex-gt→lt [] [] h = ground arith
lex-gt→lt [] (y ∷ ys) h = ground arith
lex-gt→lt (x ∷ xs) [] h = refl
lex-gt→lt (x ∷ xs) (y ∷ ys) h = ground (arith, lex-gt→lt xs ys)

pub lex-lt→gt : (xs ys : List ℕ) → lex xs ys ≡ Ordering.lt → lex ys xs ≡ Ordering.gt
unfolding lex
lex-lt→gt [] [] h = ground arith
lex-lt→gt [] (y ∷ ys) h = refl
lex-lt→gt (x ∷ xs) [] h = ground arith
lex-lt→gt (x ∷ xs) (y ∷ ys) h = ground (arith, lex-lt→gt xs ys)

pub lex_trans :
    (xs ys zs : List ℕ)
    → lex xs ys ≡ Ordering.lt
    → lex ys zs ≡ Ordering.lt
    → lex xs zs ≡ Ordering.lt
unfolding lex
lex_trans [] [] zs p q = ground arith
lex_trans [] (y ∷ ys) [] p q = ground arith
lex_trans [] (y ∷ ys) (z ∷ zs) p q = refl
lex_trans (x ∷ xs) [] zs p q = ground arith
lex_trans (x ∷ xs) (y ∷ ys) [] p q = ground arith
lex_trans (x ∷ xs) (y ∷ ys) (z ∷ zs) p q = ground (arith, lex_trans xs ys zs)

-- The sign of `compare_keys` is a strict total order: zero exactly on equal keys, turned round by
-- exchanging the keys, and transitive.
pub compare_keys_order :
    (xs ys zs : List ℕ)
    → ((compare_keys xs ys ≡ Ordering.eq) ↔ (xs ≡ ys))
      × ((compare_keys xs ys ≡ Ordering.lt) ↔ (compare_keys ys xs ≡ Ordering.gt))
      × (compare_keys xs ys ≡ Ordering.lt
          → compare_keys ys zs ≡ Ordering.lt
          → compare_keys xs zs ≡ Ordering.lt)
compare_keys_order xs ys zs =
    rw
      (
        compare_keys-lex xs ys,
        compare_keys-lex ys xs,
        compare_keys-lex ys zs,
        compare_keys-lex xs zs,
      )
      (
        (eq_of_lex xs ys, λ e. ap (lex xs) (sym e) ∙ lex_self xs),
        (lex-lt→gt xs ys, lex-gt→lt ys xs),
        lex_trans xs ys zs,
      )
