-- ===== src/Common/Http/Chunked.antt =====
-- `http_chunked_decode` of common/src/http_protocol.c.
pub mod Grammar
pub mod Bounds
pub mod Extend
pub mod Roundtrip
use codo.Prelude.{
  ℕ, zero, suc, ◌+◌, ◌-◌, ◌*◌, ◌/◌, Bool, true, false, ◌&&◌, ◌||◌, not, Option, none, some, List,
  [], ◌∷◌, ◌++◌, ltb, ◌==◌, if◌then◌else◌, length, take, drop,
}
use codo.Common.Http.{cr, lf, split_line, strip_cr, hex_digit}

abbrev pub size_max : ℕ
size_max = 18446744073709551615

-- 1, with the decoded bytes and how many of the input the message takes; 0, with the bytes decoded
-- so far and what stands in `*consumed`; -1.
pub data Decoded : Type 0 where
  complete partial : List ℕ → ℕ → Decoded
  malformed : Decoded

-- The digits of a chunk size, from the value so far: the value, and what follows them. `none` is a
-- size that does not fit.
unfoldable pub hex_from : ℕ → List ℕ → Option (ℕ × List ℕ)
hex_from chunk [] = some (chunk, [])
hex_from chunk (c ∷ p) = elim (hex_digit c) [
  | none ↦ some (chunk, c ∷ p)
  | some h ↦ elim (ltb (size_max / 16) chunk) [ true ↦ none | false ↦ hex_from (chunk * 16 + h) p ]
]

-- What may follow the digits: nothing, or an extension or padding.
unfoldable pub size_end : List ℕ → Bool
size_end [] = true
size_end (c ∷ p) = c == 59 || (c == 32 || c == 9)

unfoldable pub starts_hex : List ℕ → Bool
starts_hex [] = false
starts_hex (c ∷ p) = elim (hex_digit c) [ none ↦ false | some h ↦ true ]

-- A chunk-size line without its line end.
unfoldable pub chunk_size : List ℕ → Option ℕ
chunk_size line = elim (starts_hex line) [
  | false ↦ none
  | true ↦ elim (hex_from 0 line) [
    | none ↦ none
    | some (chunk, rest) ↦ if size_end rest then some chunk else none
  ]
]

abbrev pub is_empty : List ℕ → Bool
is_empty [] = true
is_empty (c ∷ p) = false

-- The trailer lines up to the blank one, with the input left at position `pos`. A line takes a byte
-- at least, so that fuel for the input is enough.
unfoldable pub trailer_from : ℕ → List ℕ → ℕ → List ℕ → Decoded
trailer_from zero out pos p = partial out 0
trailer_from (suc n) out pos p = elim (split_line p) [
  | none ↦ partial out 0
  | some (line, rest) ↦ elim (is_empty (strip_cr line)) [
    | true ↦ complete out (pos + length line + 1)
    | false ↦ trailer_from n out (pos + length line + 1) rest
  ]
]

-- The line end behind a chunk's data: how many bytes it takes and what follows it.
pub data LineEnd : Type 0 where
  ended : ℕ → List ℕ → LineEnd
  missing wrong : LineEnd

unfoldable pub feed : ℕ → List ℕ → LineEnd
feed n [] = missing
feed n (c ∷ p) = if c == lf then ended (n + 1) p else wrong

unfoldable pub data_end : List ℕ → LineEnd
data_end [] = missing
data_end (c ∷ p) = if c == cr then feed 1 p else feed 0 (c ∷ p)

-- The loop over the chunks, with the input left at position `pos`.
unfoldable pub chunks_from : ℕ → List ℕ → ℕ → List ℕ → Decoded
chunks_from zero out pos p = partial out 0
chunks_from (suc n) out pos p = elim (split_line p) [
  | none ↦ partial out pos
  | some (line, rest) ↦ elim (chunk_size (strip_cr line)) [
    | none ↦ malformed
    | some chunk ↦ elim (chunk == 0) [
      | true ↦ trailer_from n out (pos + length line + 1) rest
      | false ↦ elim (ltb (length rest) chunk) [
        | true ↦ partial out 0
        | false ↦ elim (data_end (drop chunk rest)) [
          | missing ↦ partial (out ++ take chunk rest) 0
          | wrong ↦ malformed
          | ended k left ↦
              chunks_from n (out ++ take chunk rest) (pos + length line + 1 + chunk + k) left
        ]
      ]
    ]
  ]
]

-- Each round takes a line feed at least, so that fuel for the input is enough.
unfoldable pub http_chunked_decode : List ℕ → Decoded
http_chunked_decode input = chunks_from (suc (length input)) [] 0 input
