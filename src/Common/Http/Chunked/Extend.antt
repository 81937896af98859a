-- ===== src/Common/Http/Chunked/Extend.antt =====
-- The chunked decoder on an input that grows (common/src/http_protocol.c).
use codo.Prelude.{
  ℕ, zero, suc, ◌+◌, ◌≤◌, ◌≡◌, refl, Bool, true, false, some, List, [], ◌∷◌, ◌++◌, Bool-cases,
  Option-cases, inl, inr, ltb, ◌==◌, ◌⊎◌, arith, length, take, drop, length-append, take-append_le,
  drop-append_le,
}
use codo.Common.Http.{lf, split_line, strip_cr}
use codo.Common.Http.Chunked.{
  Decoded, complete, partial, malformed, LineEnd, ended, missing, wrong, is_empty, chunk_size,
  trailer_from, feed, data_end, chunks_from, http_chunked_decode,
}

pub split_line-append :
    (p line rest e : List ℕ)
    → split_line p ≡ some (line, rest)
    → split_line (p ++ e) ≡ some (line, rest ++ e)
unfolding split_line
split_line-append [] line rest e h = absurd (ground arith)
split_line-append (c ∷ p) line rest e h = elim (Bool-cases (c == lf)) [
  | inl t ↦ ground arith
  | inr f ↦ elim (Option-cases (split_line p)) [
    | inl none_left ↦ absurd (ground arith)
    | inr ((line', rest'), found) ↦ ground (arith, split_line-append p line' rest' e found)
  ]
]

-- A line and the line feed behind it, with what follows, are the input.
pub split_line-length :
    (p line rest : List ℕ)
    → split_line p ≡ some (line, rest)
    → length line + 1 + length rest ≡ length p
unfolding split_line
split_line-length [] line rest h = absurd (ground arith)
split_line-length (c ∷ p) line rest h = elim (Bool-cases (c == lf)) [
  | inl t ↦ ground arith
  | inr f ↦ elim (Option-cases (split_line p)) [
    | inl none_left ↦ absurd (ground arith)
    | inr ((line', rest'), found) ↦ ground (arith, split_line-length p line' rest' found)
  ]
]

-- A verdict that more input cannot change.
abbrev pub settled : Decoded → Bool
settled (complete body used) = true
settled (partial body used) = false
settled malformed = true

trailer_from-extend :
    (n m pos : ℕ) (out p e : List ℕ)
    → n ≤ m
    → settled (trailer_from n out pos p) ≡ true
    → trailer_from m out pos (p ++ e) ≡ trailer_from n out pos p
unfolding trailer_from
trailer_from-extend zero m pos out p e le h = absurd (ground arith)
trailer_from-extend (suc n) zero pos out p e le h = absurd (omega arith)
trailer_from-extend (suc n) (suc m) pos out p e le h = elim (Option-cases (split_line p)) [
  | inl none_left ↦ absurd (ground (arith, none_left))
  | inr ((line, rest), found) ↦
      let more = split_line-append p line rest e found in
      elim (Bool-cases (is_empty (strip_cr line))) [
        | inl t ↦ ground (arith, found, more, t)
        | inr f ↦ ground (
          arith,
          found,
          more,
          f,
          trailer_from-extend n m (pos + length line + 1) out rest e (omega arith),
        )
      ]
]

-- What a line end becomes when more input follows.
abbrev with_more : LineEnd → List ℕ → LineEnd
with_more (ended k left) e = ended k (left ++ e)
with_more missing e = missing
with_more wrong e = wrong

abbrev seen : LineEnd → Bool
seen (ended k left) = true
seen missing = false
seen wrong = true

data_end-append :
    (p e : List ℕ) → seen (data_end p) ≡ true → data_end (p ++ e) ≡ with_more (data_end p) e
unfolding data_end feed
data_end-append [] e h = absurd (ground arith)
data_end-append (c ∷ []) e h = ground arith
data_end-append (c ∷ d ∷ p) e h = ground arith

pub LineEnd-cases :
    (r : LineEnd) → (r ≡ missing) ⊎ ((r ≡ wrong) ⊎ ((k : ℕ) × (left : List ℕ) × (r ≡ ended k left)))
LineEnd-cases missing = inl refl
LineEnd-cases wrong = inr (inl refl)
LineEnd-cases (ended k left) = inr (inr (k, left, refl))

chunks_from-extend :
    (n m pos : ℕ) (out p e : List ℕ)
    → n ≤ m
    → settled (chunks_from n out pos p) ≡ true
    → chunks_from m out pos (p ++ e) ≡ chunks_from n out pos p
unfolding chunks_from
chunks_from-extend zero m pos out p e le h = absurd (ground arith)
chunks_from-extend (suc n) zero pos out p e le h = absurd (omega arith)
chunks_from-extend (suc n) (suc m) pos out p e le h = elim (Option-cases (split_line p)) [
  | inl none_left ↦ absurd (ground (arith, none_left))
  | inr ((line, rest), found) ↦
      let more = split_line-append p line rest e found in
      elim (Option-cases (chunk_size (strip_cr line))) [
        | inl bad ↦ ground (arith, found, more, bad)
        | inr (chunk, size) ↦ elim (Bool-cases (chunk == 0)) [
          | inl last ↦ ground (
            arith,
            found,
            more,
            size,
            last,
            trailer_from-extend n m (pos + length line + 1) out rest e (omega arith),
          )
          | inr some_data ↦ elim (Bool-cases (ltb (length rest) chunk)) [
            | inl short ↦ absurd (ground (arith, found, size, some_data, short))
            | inr long ↦
                let enough : chunk ≤ length rest = ground (arith, long) in
                let same = take-append_le rest e chunk enough in
                let behind = drop-append_le rest e chunk enough in
                let long' : ltb (length (rest ++ e)) chunk ≡ false =
                  ground (arith, length-append rest e) in
                elim (LineEnd-cases (data_end (drop chunk rest))) [
                  | inl missing_end ↦
                      absurd (ground (arith, found, size, some_data, long, missing_end))
                  | inr (inl wrong_end) ↦
                      let end_more : data_end (drop chunk rest ++ e) ≡ wrong =
                        rw (data_end-append (drop chunk rest) e (rw (wrong_end) refl), wrong_end)
                          refl in
                      rw (
                        chunks_from, found, more, size, some_data, long, long', behind, wrong_end,
                        end_more,
                      )
                  | inr (inr (k, left, end)) ↦
                      let end_more : data_end (drop chunk rest ++ e) ≡ ended k (left ++ e) =
                        rw (data_end-append (drop chunk rest) e (rw (end) refl), end) refl in
                      let then_settled : settled (
                            chunks_from n (out ++ take chunk rest)
                              (pos + length line + 1 + chunk + k) left)
                          ≡ true =
                        ground (arith, found, size, some_data, long, end) in
                      rw
                        (
                          chunks_from, found, more, size, some_data, long, long', behind, end,
                          end_more, same,
                        )
                        (chunks_from-extend n m (pos + length line + 1 + chunk + k)
                          (out ++ take chunk rest) left e (omega arith) then_settled)
                ]
          ]
        ]
      ]
]

-- A verdict on an input, that it is malformed or the message with its length, is also the verdict
-- on that input with more bytes behind it.
pub http_chunked_decode-extend :
    (input extra : List ℕ)
    → settled (http_chunked_decode input) ≡ true
    → http_chunked_decode (input ++ extra) ≡ http_chunked_decode input
unfolding http_chunked_decode
http_chunked_decode-extend input extra h =
    chunks_from-extend (suc (length input)) (suc (length (input ++ extra))) 0 [] input extra
      (omega (arith, length-append input extra)) h
