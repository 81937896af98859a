-- ===== src/Todo/Index/Digits.antt =====
-- Decimal texts: what the padded form is, and that reading it back gives the number
-- (api/src/todo_index.c).
use codo.Prelude.{
  ℕ, zero, suc, ◌+◌, ◌-◌, ◌*◌, ◌/◌, ◌%◌, ◌^◌, ◌≤◌, ◌<◌, ◌≡◌, refl, ◌∙◌, ap, none, some, List, [],
  ◌∷◌, ◌++◌, Bool-cases, inl, inr, ltb, arith, length, replicate, length-append,
}
use mathlib.Core.List.{append_assoc}
use native.Mathlib.Nat.{pow-suc}
use codo.Todo.Index.{uint64_max, index_id_width, decimal, padded, parse_digits}

-- `width` digits of a number, the most significant first.
unfoldable pub fixed : ℕ → ℕ → List ℕ
fixed zero n = []
fixed (suc width) n = fixed width (n / 10) ++ ((b'0' + n % 10) ∷ [])

pub length-fixed : (width n : ℕ) → length (fixed width n) ≡ width
unfolding fixed
length-fixed zero n = refl
length-fixed (suc width) n = omega (
  arith,
  length-append (fixed width (n / 10)) ((b'0' + n % 10) ∷ []),
  length-fixed width (n / 10),
)

replicate_snoc : (k d : ℕ) → replicate k d ++ (d ∷ []) ≡ d ∷ replicate k d
replicate_snoc zero d = refl
replicate_snoc (suc k) d = ap (◌∷◌ d) (replicate_snoc k d)

fixed-zero : (width : ℕ) → fixed width 0 ≡ replicate width b'0'
unfolding fixed
fixed-zero zero = refl
fixed-zero (suc width) =
    ap (λ (l : List ℕ). l ++ (b'0' ∷ [])) (fixed-zero width) ∙ replicate_snoc width b'0'

-- The digits of a number, padded to a width that holds it, are its `width` digits.
pub decimal-fixed :
    (width n : ℕ)
    → n < 10 ^ width
    → replicate (width - length (decimal width n)) b'0' ++ decimal width n ≡ fixed width n
unfolding decimal fixed
decimal-fixed zero n h = refl
decimal-fixed (suc width) n h = elim (Bool-cases (ltb n 10)) [
  | inl small ↦
      let short : n / 10 ≡ 0 = ground arith in
      let last : n % 10 ≡ n = ground arith in
      let pad : suc width - 1 ≡ width = omega arith in
      rw (small, decimal, short, last, fixed-zero width, pad)
  | inr large ↦
      let smaller : n / 10 < 10 ^ width = omega (arith, pow-suc 10 width) in
      let pad : suc width - length (decimal width (n / 10) ++ ((b'0' + n % 10) ∷ []))
          ≡ width - length (decimal width (n / 10)) =
        omega (arith, length-append (decimal width (n / 10)) ((b'0' + n % 10) ∷ [])) in
      rw (large, decimal, pad, ← append_assoc, decimal-fixed width (n / 10) smaller)
]

pub parse_digits-append :
    (id : ℕ) (xs ys : List ℕ)
    → parse_digits id (xs ++ ys)
      ≡ (elim (parse_digits id xs) [ none ↦ none | some k ↦ parse_digits k ys ])
unfolding parse_digits
parse_digits-append id [] ys = refl
parse_digits-append id (x ∷ xs) ys =
    ground (arith, parse_digits-append ((id * 10 + (x - b'0')) % (uint64_max + 1)) xs ys)

pub parse_digits-fixed :
    (width n : ℕ) → n < 10 ^ width → n ≤ uint64_max → parse_digits 0 (fixed width n) ≡ some n
unfolding fixed parse_digits
parse_digits-fixed zero n h fits = ground arith
parse_digits-fixed (suc width) n h fits =
    let smaller : n / 10 < 10 ^ width = omega (arith, pow-suc 10 width) in
    ground (
      arith,
      parse_digits-append 0 (fixed width (n / 10)) ((b'0' + n % 10) ∷ []),
      parse_digits-fixed width (n / 10) smaller,
    )

pub parse_digits-decimal :
    (width n : ℕ) → n < 10 ^ width → n ≤ uint64_max → parse_digits 0 (decimal width n) ≡ some n
unfolding decimal parse_digits
parse_digits-decimal zero n h fits = ground arith
parse_digits-decimal (suc width) n h fits = elim (Bool-cases (ltb n 10)) [
  | inl small ↦ rw (small, decimal) (ground arith)
  | inr large ↦
      let smaller : n / 10 < 10 ^ width = omega (arith, pow-suc 10 width) in
      rw (large, decimal)
        (ground (
          arith,
          parse_digits-append 0 (decimal width (n / 10)) ((b'0' + n % 10) ∷ []),
          parse_digits-decimal width (n / 10) smaller,
        ))
]

pub decimal-length :
    (width n : ℕ) → 0 < width → (0 < length (decimal width n)) × (length (decimal width n) ≤ width)
unfolding decimal
decimal-length zero n h = absurd (omega arith)
decimal-length (suc zero) n h =
    ground (arith, length-append (decimal 0 (n / 10)) ((b'0' + n % 10) ∷ []))
decimal-length (suc (suc width)) n h = ground (
  arith,
  length-append (decimal (suc width) (n / 10)) ((b'0' + n % 10) ∷ []),
  decimal-length (suc width) (n / 10),
)

pub padded-fixed : (n : ℕ) → n ≤ uint64_max → padded n ≡ fixed index_id_width n
unfolding padded
padded-fixed n h = decimal-fixed index_id_width n (omega arith)

-- The value that a run of decimal digits stands for, the first digit first.
unfoldable pub value : ℕ → List ℕ → ℕ
value acc [] = acc
value acc (c ∷ key) = value (acc * 10 + (c - b'0')) key

-- What is read is the value of the text: the sum is never reduced modulo 2^64.
pub parse_digits-value :
    (key : List ℕ) (id n : ℕ)
    → id ≤ uint64_max
    → parse_digits id key ≡ some n
    → (n ≡ value id key) × (n ≤ uint64_max)
unfolding parse_digits value
parse_digits-value [] id n h e = ground arith
parse_digits-value (c ∷ key) id n h e =
    let next = (id * 10 + (c - b'0')) % (uint64_max + 1) in
    ground (arith, parse_digits-value key next n)
