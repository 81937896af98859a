-- ===== src/Storage/Wal/Flush.antt =====
-- What a flush of the log (storage/src/wal.c) writes.
use codo.Prelude.{
  ℕ, suc, ◌+◌, ◌≤◌, ◌≡◌, refl, ◌∙◌, ap, ap₂, sym, subst, Bool, true, false, Bool-cases, inl, inr,
  List, [], ◌∷◌, ◌++◌, ltb, ◌==◌, arith, length, take, drop, take-append-drop, append_nil,
  length-append, drop-append_self, length-take, length-drop,
}
use mathlib.Core.List.{append_assoc}
use codo.Storage.Wal.{
  Wal, WriteResult, wrote, interrupted, failed, Outcome, ok, error, blocked, write_all, reset,
  flush_wal_buffer,
}

-- The state once the bytes `a` have reached the file.
abbrev pub grown : Wal → List ℕ → Wal
grown wal a = record wal { file = wal.file ++ a }

-- A run of the write loop with the bytes `left` to go: on success all of them are in the file, and
-- otherwise a prefix of them; nothing else has changed.
abbrev pub Writes : Wal → List ℕ → Outcome → Type 0
Writes wal left (ok wal' results) = wal' ≡ grown wal left
Writes wal left (error wal' results) = (a b : List ℕ) × (left ≡ a ++ b) × (wal' ≡ grown wal a)
Writes wal left (blocked wal') = (a b : List ℕ) × (left ≡ a ++ b) × (wal' ≡ grown wal a)

grown_twice : (wal : Wal) (a b : List ℕ) → grown (grown wal a) b ≡ grown wal (a ++ b)
grown_twice wal a b = ap (λ f. record wal { file = f }) (append_assoc wal.file a b)

Writes-after :
    (wal : Wal) (a left : List ℕ) (o : Outcome)
    → Writes (grown wal a) left o
    → Writes wal (a ++ left) o
Writes-after wal a left (ok wal' results) e = e ∙ grown_twice wal a left
Writes-after wal a left (error wal' results) (b, c, split, e) =
    (a ++ b, c, ap (◌++◌ a) split ∙ sym (append_assoc a b c), e ∙ grown_twice wal a b)
Writes-after wal a left (blocked wal') (b, c, split, e) =
    (a ++ b, c, ap (◌++◌ a) split ∙ sym (append_assoc a b c), e ∙ grown_twice wal a b)

grown_none : (wal : Wal) → wal ≡ grown wal []
grown_none wal = ap (λ f. record wal { file = f }) (sym (append_nil wal.file))

nil_of_length : (l : List ℕ) → length l ≡ 0 → l ≡ []
nil_of_length [] h = refl
nil_of_length (x ∷ l) h = absurd (omega arith)

module _ (wal : Wal) (pre left : List ℕ) (total : ℕ) (e : wal.buffer ≡ pre ++ left)
    (t : total ≡ length pre) where
  all_written : ltb total (length wal.buffer) ≡ false → wal ≡ grown wal left
  all_written h =
      let nothing : left ≡ [] =
        nil_of_length left (ground (arith, ap length e, length-append pre left)) in
      grown_none wal ∙ ap (grown wal) (sym nothing)

  rest_is : drop total wal.buffer ≡ left
  rest_is = ap (drop total) e ∙ drop-append_self pre left total t

  taken_after : (n : ℕ) → wal.buffer ≡ (pre ++ take n left) ++ drop n left
  taken_after n =
      e
      ∙ ap (◌++◌ pre) (sym (take-append-drop n left))
      ∙ sym (append_assoc pre (take n left) (drop n left))

step_done :
    (wal : Wal) (total : ℕ) (r : WriteResult) (results : List WriteResult)
    → ltb total (length wal.buffer) ≡ false
    → write_all wal total (r ∷ results) ≡ ok wal (r ∷ results)
unfolding write_all
step_done wal total r results h = ground arith

step_interrupted :
    (wal : Wal) (total : ℕ) (results : List WriteResult)
    → ltb total (length wal.buffer) ≡ true
    → write_all wal total (interrupted ∷ results) ≡ write_all wal total results
unfolding write_all
step_interrupted wal total results h = ground arith

step_failed :
    (wal : Wal) (total : ℕ) (results : List WriteResult)
    → ltb total (length wal.buffer) ≡ true
    → write_all wal total (failed ∷ results) ≡ error wal results
unfolding write_all
step_failed wal total results h = ground arith

step_zero :
    (wal : Wal) (total n : ℕ) (results : List WriteResult)
    → ltb total (length wal.buffer) ≡ true
    → (n == 0) ≡ true
    → write_all wal total (wrote n ∷ results) ≡ error wal results
unfolding write_all
step_zero wal total n results h k = ground arith

step_some :
    (wal : Wal) (total n : ℕ) (results : List WriteResult)
    → ltb total (length wal.buffer) ≡ true
    → (n == 0) ≡ false
    → write_all wal total (wrote n ∷ results)
      ≡ write_all
          (grown wal (take n (drop total wal.buffer)))
          (total + length (take n (drop total wal.buffer)))
          results
unfolding write_all
step_some wal total n results h k = ground arith

-- The loop of the flush, from any point of it and with any results of write(2).
pub write_all-Writes :
    (results : List WriteResult) (wal : Wal) (pre left : List ℕ) (total : ℕ)
    → wal.buffer ≡ pre ++ left
    → total ≡ length pre
    → Writes wal left (write_all wal total results)
unfolding write_all
write_all-Writes [] wal pre left total e t = elim (Bool-cases (ltb total (length wal.buffer))) [
  | inl more ↦ rw more ([], left, refl, grown_none wal)
  | inr finished ↦ rw finished (all_written wal pre left total e t finished)
]
write_all-Writes (interrupted ∷ results) wal pre left total e t =
    let rest = write_all-Writes results wal pre left total e t in
    elim (Bool-cases (ltb total (length wal.buffer))) [
      | inl more ↦ rw (step_interrupted wal total results more) rest
      | inr finished ↦
          rw (step_done wal total interrupted results finished)
            (all_written wal pre left total e t finished)
    ]
write_all-Writes (failed ∷ results) wal pre left total e t =
    elim (Bool-cases (ltb total (length wal.buffer))) [
      | inl more ↦ rw (step_failed wal total results more) ([], left, refl, grown_none wal)
      | inr finished ↦
          rw (step_done wal total failed results finished)
            (all_written wal pre left total e t finished)
    ]
write_all-Writes (wrote n ∷ results) wal pre left total e t =
    let rest =
      write_all-Writes results (grown wal (take n left)) (pre ++ take n left) (drop n left)
        (total + length (take n left)) (taken_after wal pre left total e t n)
        (omega (arith, length-append pre (take n left))) in
    let whole =
      subst
        (λ l.
          Writes wal l (write_all (grown wal (take n left)) (total + length (take n left)) results))
        (take-append-drop n left)
        (Writes-after wal (take n left) (drop n left)
          (write_all (grown wal (take n left)) (total + length (take n left)) results) rest) in
    elim (Bool-cases (ltb total (length wal.buffer))) [
      | inr finished ↦
          rw (step_done wal total (wrote n) results finished)
            (all_written wal pre left total e t finished)
      | inl more ↦ elim (Bool-cases (n == 0)) [
        | inl zero_count ↦
            rw (step_zero wal total n results more zero_count) ([], left, refl, grown_none wal)
        | inr some_count ↦
            rw (step_some wal total n results more some_count, rest_is wal pre left total e t) whole
      ]
    ]

-- How a flush ends: with the whole buffer behind the file and the buffer empty, or with a prefix of
-- it in the file and the buffer as it was.
abbrev pub Flushes : Wal → Outcome → Type 0
Flushes wal (ok wal' results) = wal' ≡ record wal { file = wal.file ++ wal.buffer; buffer = [] }
Flushes wal (error wal' results) = (a b : List ℕ) × (wal.buffer ≡ a ++ b) × (wal' ≡ grown wal a)
Flushes wal (blocked wal') = (a b : List ℕ) × (wal.buffer ≡ a ++ b) × (wal' ≡ grown wal a)

reset-Flushes : (wal : Wal) (o : Outcome) → Writes wal wal.buffer o → Flushes wal (reset o)
unfolding reset
reset-Flushes wal (ok wal' results) e = ap (λ (w : Wal). record w { buffer = [] }) e
reset-Flushes wal (error wal' results) h = h
reset-Flushes wal (blocked wal') h = h

pub drained-Flushes :
    (wal : Wal) (results : List WriteResult) → Flushes wal (reset (write_all wal 0 results))
drained-Flushes wal results =
    reset-Flushes wal (write_all wal 0 results)
      (write_all-Writes results wal [] wal.buffer 0 refl refl)

-- For any results of write(2), short counts and interrupts included, a flush that returns 0 has put
-- the whole buffer behind the file, in order and once, and emptied the buffer; a flush that returns
-- -1, or has not returned, has put a prefix of the buffer there and left the buffer as it was.
pub flush_wal_buffer-Flushes :
    (wal : Wal) (results : List WriteResult) → Flushes wal (flush_wal_buffer wal results)
unfolding flush_wal_buffer
flush_wal_buffer-Flushes wal results = elim (Bool-cases (ltb 0 (length wal.buffer))) [
  | inl full ↦ rw full (drained-Flushes wal results)
  | inr empty ↦
      let nothing : wal.buffer ≡ [] = nil_of_length wal.buffer (ground arith) in
      rw empty (
        ap₂ (λ f b. record wal { file = f; buffer = b })
          (sym (append_nil wal.file) ∙ ap (◌++◌ wal.file) (sym nothing)) nothing)
]

-- The results of write(2) that are no interrupts.
unfoldable pub attempts : List WriteResult → ℕ
attempts [] = 0
attempts (interrupted ∷ results) = attempts results
attempts (_ ∷ results) = suc (attempts results)

abbrev pub has_returned : Outcome → Bool
has_returned (ok wal results) = true
has_returned (error wal results) = true
has_returned (blocked wal) = false

write_all_returns :
    (results : List WriteResult) (wal : Wal) (total_written : ℕ)
    → length wal.buffer ≤ total_written + attempts results
    → has_returned (write_all wal total_written results) ≡ true
unfolding write_all attempts
write_all_returns [] wal total_written h = ground arith
write_all_returns (interrupted ∷ results) wal total_written h =
    ground (arith, write_all_returns results wal total_written)
write_all_returns (failed ∷ results) wal total_written h = ground arith
write_all_returns (wrote n ∷ results) wal total_written h = ground (
  arith,
  length-take n (drop total_written wal.buffer),
  length-drop total_written wal.buffer,
  write_all_returns results (grown wal (take n (drop total_written wal.buffer)))
      (total_written + length (take n (drop total_written wal.buffer))),
)

-- A flush returns, whatever the interrupts: after as many writes as the buffer has bytes, or before.
pub flush_wal_buffer-returns :
    (wal : Wal) (results : List WriteResult)
    → length wal.buffer ≤ attempts results
    → has_returned (flush_wal_buffer wal results) ≡ true
unfolding flush_wal_buffer reset
flush_wal_buffer-returns wal results h = ground (arith, write_all_returns results wal 0)
