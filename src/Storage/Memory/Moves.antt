-- ===== src/Storage/Memory/Moves.antt =====
-- What a `memmove` inside a buffer of three parts leaves behind.
use codo.Prelude.{
  ℕ, ◌+◌, ◌≤◌, ◌≡◌, refl, ◌∙◌, ap, ap₂, List, ◌++◌, arith, length, take, drop, take-append,
  drop-append, take-append_self, drop-append_self, length-append, length-take_of_le,
}
use mathlib.Core.List.{append_assoc}
use codo.Storage.Memory.{overwrite, moved}

module _ (a b c : List ℕ) where
  loaded : (i : ℕ) → i ≡ length a → take (length b) (drop i (a ++ (b ++ c))) ≡ b
  loaded i e =
      ap (take (length b)) (drop-append_self a (b ++ c) i e) ∙ take-append_self b c (length b) refl

  -- Moving the middle part up by `n` cells and filling the gap inserts the cells before it.
  pub overwrite-moved_up :
      (i n : ℕ) (cells area : List ℕ)
      → area ≡ a ++ (b ++ c)
      → i ≡ length a
      → n ≡ length cells
      → n ≤ length c
      → overwrite (moved area (i + n) i (length b)) i cells ≡ a ++ (cells ++ (b ++ drop n c))
  unfolding overwrite
  overwrite-moved_up i n cells area packed at size room =
      let whole = a ++ (b ++ c) in
      let front = a ++ take n (b ++ c) in
      let tail = b ++ drop n c in
      let shifted : moved area (i + n) i (length b) ≡ front ++ tail =
        ap
          (λ l.
            take (i + n) l
            ++ (take (length b) (drop i l) ++ drop (i + n + length (take (length b) (drop i l))) l))
          packed
        ∙ ap (λ l. take (i + n) whole ++ (l ++ drop (i + n + length l) whole)) (loaded i at)
        ∙ ap₂ (λ l r. l ++ (b ++ r)) (take-append a (b ++ c) (i + n) n (omega arith))
            (drop-append a (b ++ c) (i + n + length b) (n + length b) (omega arith)
              ∙ drop-append b c (n + length b) n (omega arith)) in
      let front_size : i + n ≡ length front = omega (
        arith,
        length-append a (take n (b ++ c)),
        length-append b c,
        length-take_of_le n (b ++ c),
      ) in
      ap (λ l. take i l ++ (cells ++ drop (i + length cells) l)) shifted
      ∙ ap₂ (λ l r. l ++ (cells ++ r))
          (ap (take i) (append_assoc a (take n (b ++ c)) tail)
            ∙ take-append_self a (take n (b ++ c) ++ tail) i at)
          (drop-append_self front tail (i + length cells) (omega arith))

-- Moving the third part down over the second deletes it.
pub moved_down :
    (a d b c area : List ℕ) (i j : ℕ)
    → area ≡ a ++ (d ++ (b ++ c))
    → i ≡ length a
    → j ≡ i + length d
    → moved area i j (length b) ≡ a ++ (b ++ drop (length b) (d ++ (b ++ c)))
unfolding overwrite
moved_down a d b c area i j packed at next =
    let whole = a ++ (d ++ (b ++ c)) in
    ap
      (λ l.
        take i l
        ++ (take (length b) (drop j l) ++ drop (i + length (take (length b) (drop j l))) l))
      packed
    ∙ ap (λ l. take i whole ++ (l ++ drop (i + length l) whole))
        (ap (take (length b)) (drop-append a (d ++ (b ++ c)) j (length d) (omega arith))
          ∙ ap (take (length b)) (drop-append_self d (b ++ c) (length d) refl)
          ∙ take-append_self b c (length b) refl)
    ∙ ap₂ (λ l r. l ++ (b ++ r)) (take-append_self a (d ++ (b ++ c)) i at)
        (drop-append a (d ++ (b ++ c)) (i + length b) (length b) (omega arith))
