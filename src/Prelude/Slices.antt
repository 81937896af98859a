-- ===== src/Prelude/Slices.antt =====
-- Slices of a list at native offsets: `take` and `drop` on an append, and the store of one run of
-- cells over another.
use Prim.Native.Nat.{ℕ, zero, suc, ◌+◌, ◌≤◌, ◌<◌}
use mathlib.Core.Path.{◌≡◌, refl, ap, ◌∙◌}
use mathlib.Core.Option.{some}
use mathlib.Core.List.{List, [], ◌∷◌, ◌++◌}
use native.Mathlib.Omega.{arith}
use codo.Prelude.Lists.{length, get_elem?, get_or, take, drop, length-take}

module _ {ℓ} {A : Type ℓ} where
  -- Equations on the offset keep it a variable, since `length xs + n` is stuck.
  pub take-append :
      (xs ys : List A) (i n : ℕ) → i ≡ length xs + n → take i (xs ++ ys) ≡ xs ++ take n ys
  take-append [] ys i n e = let e' : i ≡ n = omega arith in ap (λ k. take k ys) e'
  take-append (x ∷ xs) ys zero n e = absurd (omega arith)
  take-append (x ∷ xs) ys (suc i) n e = ap (◌∷◌ x) (take-append xs ys i n (omega arith))

  pub drop-append : (xs ys : List A) (i n : ℕ) → i ≡ length xs + n → drop i (xs ++ ys) ≡ drop n ys
  drop-append [] ys i n e = let e' : i ≡ n = omega arith in ap (λ k. drop k ys) e'
  drop-append (x ∷ xs) ys zero n e = absurd (omega arith)
  drop-append (x ∷ xs) ys (suc i) n e = drop-append xs ys i n (omega arith)

  pub append_nil : (xs : List A) → xs ++ [] ≡ xs
  append_nil [] = refl
  append_nil (x ∷ xs) = ap (◌∷◌ x) (append_nil xs)

  pub take-append_self : (xs ys : List A) (i : ℕ) → i ≡ length xs → take i (xs ++ ys) ≡ xs
  take-append_self xs ys i e = take-append xs ys i 0 (omega arith) ∙ append_nil xs

  pub drop-append_self : (xs ys : List A) (i : ℕ) → i ≡ length xs → drop i (xs ++ ys) ≡ ys
  drop-append_self xs ys i e = drop-append xs ys i 0 (omega arith)

  pub length-take_of_le : (n : ℕ) (xs : List A) → n ≤ length xs → length (take n xs) ≡ n
  length-take_of_le n xs h = omega (arith, length-take n xs)

  -- A list around one of its elements.
  pub split_at :
      (xs : List A) (i : ℕ) {x : A}
      → get_elem? xs i ≡ some x
      → xs ≡ take i xs ++ (x ∷ drop (suc i) xs)
  split_at [] i h = absurd (ground arith)
  split_at (y ∷ ys) zero h = ground arith
  split_at (y ∷ ys) (suc i) h = ap (◌∷◌ y) (split_at ys i h)

  pub get_elem?-lt : (xs : List A) (i : ℕ) {x : A} → get_elem? xs i ≡ some x → i < length xs
  get_elem?-lt [] i h = absurd (ground arith)
  get_elem?-lt (y ∷ ys) zero h = omega arith
  get_elem?-lt (y ∷ ys) (suc i) h = omega (arith, get_elem?-lt ys i h)

  pub get_elem?_in : (xs : List A) (i : ℕ) → i < length xs → (x : A) × (get_elem? xs i ≡ some x)
  get_elem?_in [] i h = absurd (omega arith)
  get_elem?_in (y ∷ ys) zero h = (y, refl)
  get_elem?_in (y ∷ ys) (suc i) h = get_elem?_in ys i (omega arith)

  pub get_or-append :
      (xs ys : List A) (y d : A) (i : ℕ) → i ≡ length xs → get_or (xs ++ (y ∷ ys)) i d ≡ y
  get_or-append [] ys y d zero e = refl
  get_or-append [] ys y d (suc i) e = absurd (omega arith)
  get_or-append (x ∷ xs) ys y d zero e = absurd (omega arith)
  get_or-append (x ∷ xs) ys y d (suc i) e = get_or-append xs ys y d i (omega arith)

  pub take-append_le : (xs ys : List A) (n : ℕ) → n ≤ length xs → take n (xs ++ ys) ≡ take n xs
  take-append_le xs ys zero h = refl
  take-append_le [] ys (suc n) h = absurd (omega arith)
  take-append_le (x ∷ xs) ys (suc n) h = ap (◌∷◌ x) (take-append_le xs ys n (omega arith))

  pub drop-append_le :
      (xs ys : List A) (n : ℕ) → n ≤ length xs → drop n (xs ++ ys) ≡ drop n xs ++ ys
  drop-append_le xs ys zero h = refl
  drop-append_le [] ys (suc n) h = absurd (omega arith)
  drop-append_le (x ∷ xs) ys (suc n) h = drop-append_le xs ys n (omega arith)
