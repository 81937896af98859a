-- ===== src/Common/Http/Chunked/Bounds.antt =====
-- The lengths that the chunked decoder reports, and the fuel of its loops
-- (common/src/http_protocol.c).
use codo.Prelude.{
  ℕ, zero, suc, ◌+◌, ◌≤◌, ◌<◌, ◌≡◌, refl, List, [], ◌∷◌, ◌++◌, Bool-cases, Option-cases, inl, inr,
  ltb, ◌==◌, arith, length, take, drop, length-append, length-drop, length-take_of_le,
}
use codo.Common.Http.{split_line, strip_cr}
use codo.Common.Http.Chunked.{
  Decoded, complete, partial, malformed, ended, is_empty, chunk_size, trailer_from, feed, data_end,
  chunks_from, http_chunked_decode,
}
use codo.Common.Http.Chunked.Extend.{split_line-length, LineEnd-cases}

-- What is decoded is no longer than what was consumed, and that is within an input of `n` bytes.
abbrev pub FitsIn : ℕ → Decoded → Type 0
FitsIn n (complete body used) = (length body ≤ used) × (used ≤ n)
FitsIn n (partial body used) = (length body ≤ n) × (used ≤ n)
FitsIn n malformed = Unit

trailer_from-FitsIn :
    (f pos n : ℕ) (out p : List ℕ)
    → length out ≤ pos
    → pos + length p ≤ n
    → FitsIn n (trailer_from f out pos p)
unfolding trailer_from
trailer_from-FitsIn zero pos n out p ho hp = (omega arith, omega arith)
trailer_from-FitsIn (suc f) pos n out p ho hp = elim (Option-cases (split_line p)) [
  | inl e ↦ rw (trailer_from, e) (omega arith, omega arith)
  | inr ((line, rest), e) ↦
      let len = split_line-length p line rest e in
      elim (Bool-cases (is_empty (strip_cr line))) [
        | inl t ↦ rw (trailer_from, e, t) (omega arith, omega arith)
        | inr t ↦
            rw (trailer_from, e, t)
              (trailer_from-FitsIn f (pos + length line + 1) n out rest (omega arith) (omega arith))
      ]
]

data_end-length : (p left : List ℕ) (k : ℕ) → data_end p ≡ ended k left → k + length left ≡ length p
unfolding data_end feed
data_end-length [] left k h = absurd (ground arith)
data_end-length (c ∷ []) left k h = ground arith
data_end-length (c ∷ d ∷ p) left k h = ground arith

chunks_from-FitsIn :
    (f pos n : ℕ) (out p : List ℕ)
    → length out ≤ pos
    → pos + length p ≤ n
    → FitsIn n (chunks_from f out pos p)
unfolding chunks_from
chunks_from-FitsIn zero pos n out p ho hp = (omega arith, omega arith)
chunks_from-FitsIn (suc f) pos n out p ho hp = elim (Option-cases (split_line p)) [
  | inl e ↦ rw (chunks_from, e) (omega arith, omega arith)
  | inr ((line, rest), e) ↦
      let len = split_line-length p line rest e in
      elim (Option-cases (chunk_size (strip_cr line))) [
        | inl bad ↦ rw (chunks_from, e, bad) tt
        | inr (chunk, size) ↦ elim (Bool-cases (chunk == 0)) [
          | inl t ↦
              rw (chunks_from, e, size, t)
                (trailer_from-FitsIn f (pos + length line + 1) n out rest (omega arith)
                  (omega arith))
          | inr t ↦ elim (Bool-cases (ltb (length rest) chunk)) [
            | inl s ↦ rw (chunks_from, e, size, t, s) (omega arith, omega arith)
            | inr s ↦
                let enough : chunk ≤ length rest = ground (arith, s) in
                let taken = length-take_of_le chunk rest enough in
                let all = length-append out (take chunk rest) in
                let behind = length-drop chunk rest in
                elim (LineEnd-cases (data_end (drop chunk rest))) [
                  | inl q ↦ rw (chunks_from, e, size, t, s, q) (omega arith, omega arith)
                  | inr (inl q) ↦ rw (chunks_from, e, size, t, s, q) tt
                  | inr (inr (k, left, q)) ↦
                      let rem = data_end-length (drop chunk rest) left k q in
                      rw (chunks_from, e, size, t, s, q)
                        (chunks_from-FitsIn f (pos + length line + 1 + chunk + k) n
                          (out ++ take chunk rest) left (omega arith) (omega arith))
                ]
          ]
        ]
      ]
]

-- What is decoded fits a buffer as long as the input, and the message ends within the input.
pub http_chunked_decode-FitsIn :
    (input : List ℕ) → FitsIn (length input) (http_chunked_decode input)
unfolding http_chunked_decode
http_chunked_decode-FitsIn input =
    chunks_from-FitsIn (suc (length input)) 0 (length input) [] input (omega arith) (omega arith)

trailer_from-fuel :
    (f g pos : ℕ) (out p : List ℕ)
    → length p < f
    → length p < g
    → trailer_from f out pos p ≡ trailer_from g out pos p
unfolding trailer_from
trailer_from-fuel zero g pos out p hf hg = absurd (omega arith)
trailer_from-fuel (suc f) zero pos out p hf hg = absurd (omega arith)
trailer_from-fuel (suc f) (suc g) pos out p hf hg = elim (Option-cases (split_line p)) [
  | inl e ↦ rw (trailer_from, e) refl
  | inr ((line, rest), e) ↦
      let len = split_line-length p line rest e in
      let step =
        trailer_from-fuel f g (pos + length line + 1) out rest (omega arith) (omega arith) in
      elim (Bool-cases (is_empty (strip_cr line))) [
        | inl t ↦ rw (trailer_from, e, t) refl
        | inr t ↦ rw (trailer_from, e, t) step
      ]
]

-- The fuel never runs out: any above the length of the input gives the same result.
pub chunks_from-fuel :
    (f g pos : ℕ) (out p : List ℕ)
    → length p < f
    → length p < g
    → chunks_from f out pos p ≡ chunks_from g out pos p
unfolding chunks_from
chunks_from-fuel zero g pos out p hf hg = absurd (omega arith)
chunks_from-fuel (suc f) zero pos out p hf hg = absurd (omega arith)
chunks_from-fuel (suc f) (suc g) pos out p hf hg = elim (Option-cases (split_line p)) [
  | inl e ↦ rw (chunks_from, e) refl
  | inr ((line, rest), e) ↦
      let len = split_line-length p line rest e in
      elim (Option-cases (chunk_size (strip_cr line))) [
        | inl bad ↦ rw (chunks_from, e, bad) refl
        | inr (chunk, size) ↦ elim (Bool-cases (chunk == 0)) [
          | inl t ↦
              rw (chunks_from, e, size, t)
                (trailer_from-fuel f g (pos + length line + 1) out rest (omega arith) (omega arith))
          | inr t ↦ elim (Bool-cases (ltb (length rest) chunk)) [
            | inl s ↦ rw (chunks_from, e, size, t, s) refl
            | inr s ↦ elim (LineEnd-cases (data_end (drop chunk rest))) [
              | inl q ↦ rw (chunks_from, e, size, t, s, q) refl
              | inr (inl q) ↦ rw (chunks_from, e, size, t, s, q) refl
              | inr (inr (k, left, q)) ↦
                  let behind = length-drop chunk rest in
                  let rem = data_end-length (drop chunk rest) left k q in
                  rw (chunks_from, e, size, t, s, q)
                    (chunks_from-fuel f g (pos + length line + 1 + chunk + k)
                      (out ++ take chunk rest) left (omega arith) (omega arith))
            ]
          ]
        ]
      ]
]
