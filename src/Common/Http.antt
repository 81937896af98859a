-- ===== src/Common/Http.antt =====
-- common/src/http_protocol.c and the framing of requests in server/src/worker.c. A C string is the
-- list of its bytes; a pointer into a buffer is what is left of the buffer from there on.
pub mod Chunked
pub mod Numbers
pub mod Range
pub mod Etag
pub mod Request
pub mod Response
pub mod Fields
use codo.Prelude.{
  ℕ, zero, suc, ◌+◌, ◌-◌, ◌*◌, Bool, true, false, ◌&&◌, ◌||◌, Option, none, some, List, [], ◌∷◌,
  ltb, leb, ◌==◌, if◌then◌else◌,
}

abbrev pub cr : ℕ
cr = 13

abbrev pub lf : ℕ
lf = 10

-- ' ' or '\t'
unfoldable pub is_blank : ℕ → Bool
is_blank c = c == 32 || c == 9

-- `while (*p == ' ' || *p == '\t') p++`
unfoldable pub skip_blanks : List ℕ → List ℕ
skip_blanks [] = []
skip_blanks (c ∷ p) = elim (is_blank c) [ true ↦ skip_blanks p | false ↦ c ∷ p ]

-- `memchr(p, '\n', n)`: the bytes before the line feed, and those behind it.
unfoldable pub split_line : List ℕ → Option (List ℕ × List ℕ)
split_line [] = none
split_line (c ∷ p) = elim (c == lf) [
  | true ↦ some ([], p)
  | false ↦ elim (split_line p) [ none ↦ none | some (line, rest) ↦ some (c ∷ line, rest) ]
]

-- A line without the '\r' at its end.
unfoldable pub strip_cr : List ℕ → List ℕ
strip_cr [] = []
strip_cr (c ∷ []) = if c == cr then [] else c ∷ []
strip_cr (c ∷ d ∷ p) = c ∷ strip_cr (d ∷ p)

-- `hex_digit`: `none` is -1.
unfoldable pub hex_digit : ℕ → Option ℕ
hex_digit c =
    if leb 48 c && leb c 57
    then some (c - 48)
    else (if leb 97 c && leb c 102
        then some (c - 97 + 10)
        else (if leb 65 c && leb c 70 then some (c - 65 + 10) else none))

-- `tolower` in the C locale.
unfoldable pub lower : ℕ → ℕ
lower c = if leb 65 c && leb c 90 then c + 32 else c

-- `strcasecmp(a, b) == 0`
unfoldable pub same_word : List ℕ → List ℕ → Bool
same_word [] [] = true
same_word [] (d ∷ q) = false
same_word (c ∷ p) [] = false
same_word (c ∷ p) (d ∷ q) = lower c == lower d && same_word p q

-- `memchr(line, ':', line_len)`: the name and the value.
unfoldable pub split_colon : List ℕ → Option (List ℕ × List ℕ)
split_colon [] = none
split_colon (c ∷ p) = elim (c == b':') [
  | true ↦ some ([], p)
  | false ↦ elim (split_colon p) [ none ↦ none | some (name, v) ↦ some (c ∷ name, v) ]
]

-- A value without the blanks at its end.
unfoldable pub trim_end : List ℕ → List ℕ
trim_end [] = []
trim_end (c ∷ v) = elim (trim_end v) [ [] ↦ if is_blank c then [] else c ∷ [] | d ∷ w ↦ c ∷ d ∷ w ]
