-- ===== src/Common/Http/Numbers.antt =====
-- The numbers in header fields of common/src/http_protocol.c: `http_parse_content_length`.
use codo.Prelude.{
  ℕ, ◌+◌, ◌-◌, ◌*◌, Bool, true, false, ◌&&◌, Option, none, some, List, [], ◌∷◌, ltb, leb,
  if◌then◌else◌,
}
use codo.Common.Http.{skip_blanks}
use codo.Common.Http.Chunked.{size_max, is_empty}

unfoldable pub is_digit : ℕ → Bool
is_digit c = leb 48 c && leb c 57

-- `strtoul(p, &end, 10)` at a digit: the value, not cut to a word, and what follows the digits.
unfoldable pub digits_from : ℕ → List ℕ → ℕ × List ℕ
digits_from value [] = (value, [])
digits_from value (c ∷ p) = elim (is_digit c) [
  | true ↦ digits_from (value * 10 + (c - 48)) p
  | false ↦ (value, c ∷ p)
]

unfoldable pub starts_digit : List ℕ → Bool
starts_digit [] = false
starts_digit (c ∷ p) = is_digit c

-- `none` is -1; a value above ULONG_MAX is ERANGE.
unfoldable pub http_parse_content_length : List ℕ → Option ℕ
http_parse_content_length value =
    let start = skip_blanks value in
    elim (starts_digit start) [
      | false ↦ none
      | true ↦
          let (parsed, rest) = digits_from 0 start in
          if ltb size_max parsed
          then none
          else (if is_empty (skip_blanks rest) then some parsed else none)
    ]
