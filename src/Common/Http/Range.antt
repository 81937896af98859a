-- ===== src/Common/Http/Range.antt =====
-- Byte ranges in common/src/http_protocol.c: `parse_range_header` and `resolve_range`.
pub mod Window
use codo.Prelude.{
  ℕ, zero, suc, ◌+◌, ◌-◌, ◌*◌, Bool, true, false, ◌&&◌, ◌||◌, not, Option, none, some, List, [],
  ◌∷◌, ltb, leb, ◌==◌, if◌then◌else◌, drop,
}
use codo.Common.Http.{is_blank, skip_blanks, lower}
use codo.Common.Http.Chunked.{is_empty}
use codo.Common.Http.Numbers.{digits_from, starts_digit}

abbrev pub llong_max : ℕ
llong_max = 9223372036854775807

-- `isspace` in the C locale.
unfoldable pub is_space : ℕ → Bool
is_space c = c == 32 || leb 9 c && leb c 13

unfoldable pub skip_spaces : List ℕ → List ℕ
skip_spaces [] = []
skip_spaces (c ∷ p) = elim (is_space c) [ true ↦ skip_spaces p | false ↦ c ∷ p ]

-- `strtoll(p, &end, 10)`: whether it is below zero, its absolute value, and what follows; `none`
-- when there is no digit, or the number does not fit (ERANGE).
unfoldable pub signed_digits : Bool → List ℕ → Option (Bool × (ℕ × List ℕ))
signed_digits minus p = elim (starts_digit p) [
  | false ↦ none
  | true ↦
      let (n, rest) = digits_from 0 p in
      if ltb (if minus then llong_max + 1 else llong_max) n
      then none
      else some (minus && ltb 0 n, (n, rest))
]

unfoldable pub strtoll_sign : List ℕ → Option (Bool × (ℕ × List ℕ))
strtoll_sign [] = none
strtoll_sign (c ∷ p) =
    if c == b'-'
    then signed_digits true p
    else (if c == b'+' then signed_digits false p else signed_digits false (c ∷ p))

unfoldable pub strtoll : List ℕ → Option (Bool × (ℕ × List ℕ))
strtoll p = strtoll_sign (skip_spaces p)

-- The fields of the request that say which range it asks for; the range's end is `none` for -1.
pub record Range : Type 0 where
  pub has_range : Bool
  pub range_suffix : Bool
  pub range_start : ℕ
  pub range_end : Option ℕ

abbrev pub no_range : Range
no_range = record { has_range = false; range_suffix = false; range_start = 0; range_end = some 0 }

-- "-N", behind the '-'.
unfoldable pub suffix_range : List ℕ → Range → Range
suffix_range spec r = elim (strtoll spec) [
  | none ↦ r
  | some (below, (n, rest)) ↦
      if below || not (is_empty (skip_blanks rest))
      then r
      else record { has_range = true; range_suffix = true; range_start = n; range_end = none }
]

-- Behind "N-": the last position, or nothing.
unfoldable pub last_range : ℕ → List ℕ → Range → Range
last_range first after r = elim (is_empty after) [
  | true ↦ record r { has_range = true; range_start = first; range_end = none }
  | false ↦ elim (strtoll after) [
    | none ↦ r
    | some (below, (last, rest)) ↦
        if below || (ltb last first || not (is_empty (skip_blanks rest)))
        then r
        else record r { has_range = true; range_start = first; range_end = some last }
  ]
]

unfoldable pub behind_minus : List ℕ → Option (List ℕ)
behind_minus [] = none
behind_minus (c ∷ p) = if c == b'-' then some p else none

unfoldable pub first_range : List ℕ → Range → Range
first_range spec r = elim (strtoll spec) [
  | none ↦ r
  | some (below, (first, rest)) ↦ elim below [
    | true ↦ r
    | false ↦ elim (behind_minus rest) [
      | none ↦ r
      | some after ↦ last_range first (skip_blanks after) r
    ]
  ]
]

-- `strncasecmp(text, prefix, strlen(prefix)) == 0`, with a prefix in small letters: what follows it.
unfoldable pub behind_prefix : List ℕ → List ℕ → Option (List ℕ)
behind_prefix [] text = some text
behind_prefix (c ∷ prefix) [] = none
behind_prefix (c ∷ prefix) (d ∷ text) = elim (c == lower d) [
  | true ↦ behind_prefix prefix text
  | false ↦ none
]

unfoldable pub has_comma : List ℕ → Bool
has_comma [] = false
has_comma (c ∷ p) = c == b',' || has_comma p

abbrev pub bytes_unit : List ℕ
bytes_unit = b'b' ∷ b'y' ∷ b't' ∷ b'e' ∷ b's' ∷ b'=' ∷ []

unfoldable pub parse_range_spec : List ℕ → Range → Range
parse_range_spec spec r = elim (behind_minus spec) [
  | some p ↦ suffix_range p r
  | none ↦ first_range spec r
]

unfoldable pub parse_range_header : List ℕ → Range → Range
parse_range_header text r = elim (behind_prefix bytes_unit text) [
  | none ↦ r
  | some spec ↦ if has_comma spec then r else parse_range_spec (skip_blanks spec) r
]

-- The window of an entity of `size` bytes, both ends included; `none` is -1. No size is negative.
unfoldable pub resolve_range : Range → ℕ → Option (ℕ × ℕ)
resolve_range r size =
    if size == 0
    then none
    else (if r.range_suffix
        then (if r.range_start == 0
            then none
            else (let n = if ltb size r.range_start then size else r.range_start in
                some (size - n, size - 1)))
        else (if leb size r.range_start
            then none
            else some (
              r.range_start,
              elim r.range_end [
                | none ↦ size - 1
                | some last ↦ if leb size last then size - 1 else last
              ],
            )))
