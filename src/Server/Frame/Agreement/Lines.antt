-- ===== src/Server/Frame/Agreement/Lines.antt =====
-- The variables that the framing of server/src/worker.c and the parser of
-- common/src/http_protocol.c keep after each header line.
use codo.Prelude.{
  ℕ, ◌≡◌, refl, sym, ◌∙◌, true, false, Option, none, some, List, [], Bool-cases, Option-cases, inl,
  inr, ◌⊎◌, ltb, leb, arith, if◌then◌else◌, length,
}
use codo.Common.Http.{skip_blanks, trim_end, same_word}
use codo.Common.Http.Numbers.{http_parse_content_length}
use codo.Common.Http.Fields.{
  content_length_name, transfer_encoding_name, expect_name, connection_name, chunked_value,
  continue_value,
}
use codo.Common.Http.Request.{
  Request, max_headers, record_header, connection_field, other_field, length_field, coding_field,
  store_header_field,
}
use codo.Server.Frame.{
  Framing, Walk, refused, walked, copy_header_value, content_length_field, transfer_encoding_field,
  expect_field,
}
use codo.Server.Frame.Smuggling.{same_word-length}
use codo.Server.Frame.Agreement.Values.{http_parse_content_length-trim}

-- Both have noted the same framing, and the parser has no body yet.
abbrev pub Matches : Request → Framing → Type 0
Matches r f =
    (r.content_length ≡ f.content_length)
    × ((r.saw_content_length ≡ f.saw_content_length) × ((r.chunked ≡ f.chunked) × (r.body ≡ [])))

-- The parts of a request that frame its body are the same.
abbrev SameFraming : Request → Request → Type 0
SameFraming q r =
    (q.content_length ≡ r.content_length)
    × ((q.saw_content_length ≡ r.saw_content_length)
        × ((q.chunked ≡ r.chunked) × (q.body ≡ r.body)))

record_header-SameFraming : (r : Request) (name v : List ℕ) → SameFraming (record_header r name v) r
unfolding record_header
record_header-SameFraming r name v = elim (Bool-cases (ltb (length r.headers) max_headers)) [
  | inl t ↦ rw (record_header, t) (refl, (refl, (refl, refl)))
  | inr t ↦ rw (record_header, t) (refl, (refl, (refl, refl)))
]

connection_field-SameFraming : (r : Request) (v : List ℕ) → SameFraming (connection_field r v) r
unfolding connection_field
connection_field-SameFraming r v = (ground arith, (ground arith, (ground arith, ground arith)))

other_field-SameFraming :
    (date : List ℕ → Option ℕ) (r : Request) (name v : List ℕ)
    → SameFraming (other_field date r name v) r
unfolding other_field
other_field-SameFraming date r name v = (ground arith, (ground arith, (ground arith, ground arith)))

SameFraming-Matches : (q r : Request) (f : Framing) → SameFraming q r → Matches r f → Matches q f
SameFraming-Matches q r f (a, (b, (c, d))) (a', (b', (c', d'))) =
    (a ∙ a', (b ∙ b', (c ∙ c', d ∙ d')))

-- If neither refuses, both have noted the same.
abbrev pub Agree : Walk → Option Request → Type 0
Agree (refused e f) q = Unit
Agree (walked g) none = Unit
Agree (walked g) (some q) = Matches q g

Agree-none : (w : Walk) → Agree w none
Agree-none (refused e f) = tt
Agree-none (walked g) = tt

copy_header_value-cases :
    (v : List ℕ)
    → (copy_header_value v 32 ≡ none) ⊎ (copy_header_value v 32 ≡ some (trim_end (skip_blanks v)))
unfolding copy_header_value
copy_header_value-cases v = elim (Bool-cases (leb 32 (length (trim_end (skip_blanks v))))) [
  | inl t ↦ inl (rw (copy_header_value, t) refl)
  | inr t ↦ inr (rw (copy_header_value, t) refl)
]

length_field-Agree :
    (r : Request) (f : Framing) (v : List ℕ)
    → Matches r f
    → Agree (content_length_field f v) (length_field r (skip_blanks v))
unfolding content_length_field length_field
length_field-Agree r f v (a, (b, (c, d))) = elim (copy_header_value-cases v) [
  | inl e ↦ rw (content_length_field, e) tt
  | inr e ↦ elim (Option-cases (http_parse_content_length (skip_blanks v))) [
    | inl n ↦ rw (content_length_field, length_field, e, http_parse_content_length-trim v, n) tt
    | inr (k, n) ↦
        rw (content_length_field, length_field, e, http_parse_content_length-trim v, n)
          (refl, (refl, (c, d)))
  ]
]

coding_field-Agree :
    (r : Request) (f : Framing) (v : List ℕ)
    → Matches r f
    → Agree (transfer_encoding_field f v) (coding_field r (skip_blanks v))
unfolding transfer_encoding_field coding_field
coding_field-Agree r f v (a, (b, (c, d))) = elim (copy_header_value-cases v) [
  | inl e ↦ rw (transfer_encoding_field, e) tt
  | inr e ↦ elim (Bool-cases (same_word (trim_end (skip_blanks v)) chunked_value)) [
    | inl t ↦ rw (transfer_encoding_field, coding_field, e, t) (a, (b, (refl, d)))
    | inr t ↦ rw (transfer_encoding_field, coding_field, e, t) tt
  ]
]

-- A field that frames nothing leaves the noted framing alone.
expect_field-Agree :
    (r : Request) (f : Framing) (v : List ℕ) → Matches r f → Agree (expect_field f v) (some r)
unfolding expect_field
expect_field-Agree r f v h = elim (copy_header_value-cases v) [
  | inl e ↦ rw (expect_field, e) h
  | inr e ↦ elim (Bool-cases (same_word (trim_end (skip_blanks v)) continue_value)) [
    | inl t ↦ rw (expect_field, e, t) h
    | inr t ↦ rw (expect_field, e, t) h
  ]
]

pub other_walk-Agree :
    (r : Request) (f : Framing) (name v : List ℕ)
    → Matches r f
    → Agree (if same_word name expect_name then expect_field f v else walked f) (some r)
other_walk-Agree r f name v h = elim (Bool-cases (same_word name expect_name)) [
  | inl t ↦ rw (t) (expect_field-Agree r f v h)
  | inr t ↦ rw (t) h
]

-- A name is of one field only, when the lengths differ.
other_name :
    (name a b : List ℕ)
    → (length a ≡ length b → ⊥)
    → same_word name a ≡ true
    → same_word name b ≡ false
other_name name a b h t = elim (Bool-cases (same_word name b)) [
  | inl u ↦ absurd (h (sym (same_word-length name a t) ∙ same_word-length name b u))
  | inr u ↦ u
]

-- What the framing does at a header line's name and value.
unfoldable pub walk_field : Framing → List ℕ → List ℕ → Walk
walk_field f name v =
    if same_word name content_length_name
    then content_length_field f v
    else (if same_word name transfer_encoding_name
        then transfer_encoding_field f v
        else (if same_word name expect_name then expect_field f v else walked f))

pub store_header_field-Agree :
    (date : List ℕ → Option ℕ) (r : Request) (f : Framing) (name v : List ℕ)
    → Matches r f
    → Agree (walk_field f name v) (store_header_field date r name (skip_blanks v))
unfolding walk_field store_header_field
store_header_field-Agree date r f name v h =
    let kept = record_header r name (skip_blanks v) in
    let h' = SameFraming-Matches kept r f (record_header-SameFraming r name (skip_blanks v)) h in
    elim (Bool-cases (same_word name connection_name)) [
      | inl t ↦
          let no_length =
            other_name name connection_name content_length_name (λ e. omega arith) t in
          let no_coding =
            other_name name connection_name transfer_encoding_name (λ e. omega arith) t in
          let q = connection_field kept (skip_blanks v) in
          rw (walk_field, store_header_field, t, no_length, no_coding)
            (other_walk-Agree q f name v
              (SameFraming-Matches q kept f (connection_field-SameFraming kept (skip_blanks v)) h'))
      | inr t ↦ elim (Bool-cases (same_word name content_length_name)) [
        | inl u ↦ rw (walk_field, store_header_field, t, u) (length_field-Agree kept f v h')
        | inr u ↦ elim (Bool-cases (same_word name transfer_encoding_name)) [
          | inl x ↦ rw (walk_field, store_header_field, t, u, x) (coding_field-Agree kept f v h')
          | inr x ↦
              let q = other_field date kept name (skip_blanks v) in
              rw (walk_field, store_header_field, t, u, x)
                (other_walk-Agree q f name v (
                  SameFraming-Matches q kept f
                    (other_field-SameFraming date kept name (skip_blanks v)) h'))
        ]
      ]
    ]
