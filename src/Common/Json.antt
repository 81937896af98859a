-- ===== src/Common/Json.antt =====
-- common/src/json_util.c, over lists of bytes: a request body is its first `len` bytes, and what
-- stands in an output buffer is without the final NUL. A pointer into the body is what is left of
-- the body from there on.
pub mod Bodies
pub mod Strings
use codo.Prelude.{
  ℕ, zero, suc, ◌+◌, ◌*◌, ◌-◌, ◌%◌, ◌/◌, ◌^◌, Bool, true, false, ◌&&◌, ◌||◌, not, Option, none,
  some, List, [], ◌∷◌, ◌++◌, ltb, leb, ◌==◌, if◌then◌else◌, length, take, drop,
}
use codo.Todo.Index.{same_bytes}

-- '"' and '\'.
abbrev pub quote : ℕ
quote = 34

abbrev pub backslash : ℕ
backslash = 92

-- A digit of "%04x", for a value below 16.
unfoldable pub hex_digit : ℕ → ℕ
hex_digit n = if ltb n 10 then 48 + n else 87 + n

-- What the switch of `json_escape` puts for a byte: the `rep` strings, or the byte itself.
unfoldable pub escaped : ℕ → List ℕ
escaped c =
    if c == 34
    then (backslash ∷ 34 ∷ [])
    else (if c == 92
        then (backslash ∷ 92 ∷ [])
        else (if c == 10
            then (backslash ∷ 110 ∷ [])
            else (if c == 13
                then (backslash ∷ 114 ∷ [])
                else (if c == 9
                    then (backslash ∷ 116 ∷ [])
                    else (if ltb c 32
                        then (backslash
                            ∷ 117
                            ∷ 48
                            ∷ 48
                            ∷ hex_digit (c / 16)
                            ∷ hex_digit (c % 16)
                            ∷ [])
                        else (c ∷ []))))))

-- The loop, with what stands in `dst` so far; -1 is `none`.
unfoldable pub escape_from : ℕ → List ℕ → List ℕ → Option (List ℕ)
escape_from dst_size dst [] = if leb dst_size (length dst) then none else some dst
escape_from dst_size dst (c ∷ src) =
    let rest = escape_from dst_size (dst ++ escaped c) src in
    if leb dst_size (length dst + length (escaped c)) then none else rest

unfoldable pub json_escape : ℕ → List ℕ → Option (List ℕ)
json_escape dst_size src = escape_from dst_size [] src

unfoldable pub is_space : ℕ → Bool
is_space c = c == 32 || c == 9 || c == 10 || c == 13

unfoldable pub skip_ws : List ℕ → List ℕ
skip_ws [] = []
skip_ws (c ∷ p) = let rest = skip_ws p in if is_space c then rest else c ∷ p

-- The scan for a string's closing quote: the bytes passed over, and what is left from the quote on.
-- `skipped` says that the byte before is a backslash that escapes this one.
unfoldable pub scan_string : Bool → List ℕ → List ℕ × List ℕ
scan_string skipped [] = ([], [])
scan_string skipped (c ∷ q) =
    let (str, after) = scan_string (not skipped && c == 92) q in
    if not skipped && c == 34 then ([], c ∷ q) else (c ∷ str, after)

-- A key is followed by ':' and the value.
unfoldable pub value_of : List ℕ → List ℕ → List ℕ → Option (List ℕ)
value_of field str [] = none
value_of field str (c ∷ after) =
    if c == 58 && same_bytes str field then some (skip_ws after) else none

abbrev pub or_next : Option (List ℕ) → Option (List ℕ) → Option (List ℕ)
or_next none next = next
or_next (some p) next = some p

-- What `json_find_field` does once a string is scanned: `next` is the search behind its quote.
abbrev pub at_string : List ℕ → List ℕ × List ℕ → (List ℕ → Option (List ℕ)) → Option (List ℕ)
at_string field (str, []) next = none
at_string field (str, q ∷ after) next = or_next (value_of field str (skip_ws after)) (next after)

-- The walk over the body, one byte or one string at a time; each takes at least a byte, so that
-- fuel for the body's length is enough.
unfoldable pub find_from : ℕ → List ℕ → List ℕ → Option (List ℕ)
find_from zero field p = none
find_from (suc n) field [] = none
find_from (suc n) field (c ∷ p) = elim (c == 34) [
  | true ↦ at_string field (scan_string false p) (find_from n field)
  | false ↦ find_from n field p
]

unfoldable pub json_find_field : List ℕ → List ℕ → Option (List ℕ)
json_find_field body field = find_from (length body) field body

-- The byte that stands for an escaped one, `\u` aside.
unfoldable pub unescaped : ℕ → ℕ
unescaped c =
    if c == 110
    then 10
    else (if c == 114
        then 13
        else (if c == 116 then 9 else (if c == 98 then 8 else (if c == 102 then 12 else c))))

-- The byte that a round reads at `c`, and what is left behind it. '?' is 63; `\u` skips four more
-- bytes when they are there.
unfoldable pub read_byte : ℕ → List ℕ → ℕ × List ℕ
read_byte c [] = (c, [])
read_byte c (d ∷ p) =
    if c == 92
    then (if d == 117 then (63, if ltb 3 (length p) then drop 4 p else p) else (unescaped d, p))
    else (c, d ∷ p)

-- The loop behind the opening quote, up to the closing one. Each round takes at least a byte.
unfoldable pub read_from : ℕ → ℕ → List ℕ → List ℕ → Option (List ℕ)
read_from zero out_size out p = none
read_from (suc n) out_size out [] = none
read_from (suc n) out_size out (c ∷ p) =
    let (byte, left) = read_byte c p in
    let rest = read_from n out_size (out ++ (byte ∷ [])) left in
    if c == 34 then some out else (if leb out_size (length out + 1) then none else rest)

abbrev pub read_value : ℕ → List ℕ → Option (List ℕ)
read_value out_size [] = none
read_value out_size (c ∷ p) = if c == 34 then read_from (suc (length p)) out_size [] p else none

abbrev pub read_at : ℕ → Option (List ℕ) → Option (List ℕ)
read_at out_size none = none
read_at out_size (some p) = read_value out_size p

unfoldable pub json_get_string : List ℕ → List ℕ → ℕ → Option (List ℕ)
json_get_string body field out_size = read_at out_size (json_find_field body field)

-- "true" and "false".
abbrev pub true_text : List ℕ
true_text = 116 ∷ 114 ∷ 117 ∷ 101 ∷ []

abbrev pub false_text : List ℕ
false_text = 102 ∷ 97 ∷ 108 ∷ 115 ∷ 101 ∷ []

unfoldable pub starts_with : List ℕ → List ℕ → Bool
starts_with text p = leb (length text) (length p) && same_bytes (take (length text) p) text

unfoldable pub json_get_bool : List ℕ → List ℕ → Option Bool
json_get_bool body field = elim (json_find_field body field) [
  | none ↦ none
  | some p ↦
      if starts_with true_text p
      then some true
      else (if starts_with false_text p then some false else none)
]

unfoldable pub is_digit : ℕ → Bool
is_digit c = leb 48 c && leb c 57

-- `value * 10` wraps: there is no test for an overflow.
unfoldable pub digits_from : ℕ → List ℕ → ℕ
digits_from value [] = value
digits_from value (c ∷ p) =
    let rest = digits_from ((value * 10 + (c - 48)) % 2 ^ 64) p in
    if is_digit c then rest else value

abbrev pub read_number : List ℕ → Option ℕ
read_number [] = none
read_number (c ∷ p) = if is_digit c then some (digits_from 0 (c ∷ p)) else none

unfoldable pub json_get_uint64 : List ℕ → List ℕ → Option ℕ
json_get_uint64 body field = elim (json_find_field body field) [
  | none ↦ none
  | some p ↦ read_number p
]
