-- ===== src/Common/Http/Range/Window.antt =====
-- The window of an entity that a request's ranges select (common/src/http_protocol.c).
use codo.Prelude.{
  ℕ, ◌≤◌, ◌<◌, ◌≡◌, true, false, ◌||◌, not, some, List, [], ◌∷◌, Bool-cases, Option-cases, inl, inr,
  ltb, arith,
}
use codo.Common.Http.{skip_blanks}
use codo.Common.Http.Chunked.{is_empty}
use codo.Common.Http.Range.{
  strtoll, Range, no_range, suffix_range, last_range, behind_minus, first_range, behind_prefix,
  has_comma, bytes_unit, parse_range_spec, parse_range_header, resolve_range,
}

-- A last position is no smaller than the first.
abbrev pub IsOrdered : Range → Type 0
IsOrdered r = (last : ℕ) → r.range_end ≡ some last → r.range_start ≤ last

suffix_range-IsOrdered : (spec : List ℕ) (r : Range) → IsOrdered r → IsOrdered (suffix_range spec r)
unfolding suffix_range
suffix_range-IsOrdered spec r h = elim (Option-cases (strtoll spec)) [
  | inl e ↦ rw (suffix_range, e) h
  | inr ((below, (n, rest)), e) ↦ elim (Bool-cases (below || not (is_empty (skip_blanks rest)))) [
    | inl t ↦ rw (suffix_range, e, t) h
    | inr t ↦ rw (suffix_range, e, t) (λ last q. absurd (ground (arith, q)))
  ]
]

last_range-IsOrdered :
    (first : ℕ) (after : List ℕ) (r : Range) → IsOrdered r → IsOrdered (last_range first after r)
unfolding last_range
last_range-IsOrdered first after r h = elim (Bool-cases (is_empty after)) [
  | inl t ↦ rw (last_range, t) (λ last q. absurd (ground (arith, q)))
  | inr t ↦ elim (Option-cases (strtoll after)) [
    | inl e ↦ rw (last_range, t, e) h
    | inr ((below, (n, rest)), e) ↦
        elim (Bool-cases (below || (ltb n first || not (is_empty (skip_blanks rest))))) [
          | inl u ↦ rw (last_range, t, e, u) h
          | inr u ↦ rw (last_range, t, e, u) (λ last q. ground (arith, u, q))
        ]
  ]
]

first_range-IsOrdered : (spec : List ℕ) (r : Range) → IsOrdered r → IsOrdered (first_range spec r)
unfolding first_range
first_range-IsOrdered spec r h = elim (Option-cases (strtoll spec)) [
  | inl e ↦ rw (first_range, e) h
  | inr ((true, (first, rest)), e) ↦ rw (first_range, e) h
  | inr ((false, (first, rest)), e) ↦ elim (Option-cases (behind_minus rest)) [
    | inl t ↦ rw (first_range, e, t) h
    | inr (after, t) ↦ rw (first_range, e, t) (last_range-IsOrdered first (skip_blanks after) r h)
  ]
]

parse_range_spec-IsOrdered :
    (spec : List ℕ) (r : Range) → IsOrdered r → IsOrdered (parse_range_spec spec r)
unfolding parse_range_spec
parse_range_spec-IsOrdered spec r h = elim (Option-cases (behind_minus spec)) [
  | inl e ↦ rw (parse_range_spec, e) (first_range-IsOrdered spec r h)
  | inr (p, e) ↦ rw (parse_range_spec, e) (suffix_range-IsOrdered p r h)
]

pub parse_range_header-IsOrdered :
    (text : List ℕ) (r : Range) → IsOrdered r → IsOrdered (parse_range_header text r)
unfolding parse_range_header
parse_range_header-IsOrdered text r h = elim (Option-cases (behind_prefix bytes_unit text)) [
  | inl e ↦ rw (parse_range_header, e) h
  | inr (spec, e) ↦ elim (Bool-cases (has_comma spec)) [
    | inl t ↦ rw (parse_range_header, e, t) h
    | inr t ↦ rw (parse_range_header, e, t) (parse_range_spec-IsOrdered (skip_blanks spec) r h)
  ]
]

-- The Range fields of a request, in the order in which they stand.
unfoldable pub parse_all : List (List ℕ) → Range → Range
parse_all [] r = r
parse_all (text ∷ texts) r = parse_all texts (parse_range_header text r)

parse_all-IsOrdered :
    (texts : List (List ℕ)) (r : Range) → IsOrdered r → IsOrdered (parse_all texts r)
unfolding parse_all
parse_all-IsOrdered [] r h = h
parse_all-IsOrdered (text ∷ texts) r h =
    parse_all-IsOrdered texts (parse_range_header text r) (parse_range_header-IsOrdered text r h)

resolve_range-window :
    (r : Range) (size first last : ℕ)
    → IsOrdered r
    → resolve_range r size ≡ some (first, last)
    → (first ≤ last) × (last < size)
unfolding resolve_range
resolve_range-window r size first last h q = elim (Option-cases r.range_end) [
  | inl e ↦ ground (arith, e)
  | inr (end, e) ↦ let low = h end e in ground (arith, e)
]

-- Whatever Range fields a request has, the window that is served of an entity is not empty and lies
-- within it.
pub resolve_range-parsed :
    (texts : List (List ℕ)) (size first last : ℕ)
    → resolve_range (parse_all texts no_range) size ≡ some (first, last)
    → (first ≤ last) × (last < size)
resolve_range-parsed texts size first last q =
    resolve_range-window (parse_all texts no_range) size first last
      (parse_all-IsOrdered texts no_range (λ last q. omega arith)) q
