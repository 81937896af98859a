-- ===== src/Server/Frame/Agreement/Values.antt =====
-- One header line, as the framing of server/src/worker.c and the parser of
-- common/src/http_protocol.c read it.
use codo.Prelude.{
  ℕ, ◌+◌, ◌-◌, ◌*◌, ◌≡◌, refl, sym, ap, ◌∙◌, Bool, true, false, Option, none, some, List, [], ◌∷◌,
  ◌⊎◌, Bool-cases, inl, inr, ltb, arith, if◌then◌else◌,
}
use codo.Common.Http.{is_blank, skip_blanks, trim_end}
use codo.Common.Http.Chunked.{is_empty, size_max}
use codo.Common.Http.Numbers.{is_digit, digits_from, starts_digit, http_parse_content_length}

pub List-cases : (l : List ℕ) → (l ≡ []) ⊎ ((x : ℕ × List ℕ) × (l ≡ x.0 ∷ x.1))
List-cases [] = inl refl
List-cases (d ∷ w) = inr ((d, w), refl)

trim_end-cons : (c : ℕ) (p : List ℕ) → is_blank c ≡ false → trim_end (c ∷ p) ≡ c ∷ trim_end p
unfolding trim_end
trim_end-cons c p h = elim (List-cases (trim_end p)) [
  | inl e ↦ rw (trim_end, e, h) refl
  | inr ((d, w), e) ↦ rw (trim_end, e) refl
]

trim_end-head :
    (c : ℕ) (p : List ℕ) → (trim_end (c ∷ p) ≡ []) ⊎ ((w : List ℕ) × (trim_end (c ∷ p) ≡ c ∷ w))
unfolding trim_end
trim_end-head c p = elim (List-cases (trim_end p)) [
  | inl e ↦ elim (Bool-cases (is_blank c)) [
    | inl t ↦ inl (rw (trim_end, e, t) refl)
    | inr t ↦ inr ([], rw (trim_end, e, t) refl)
  ]
  | inr ((d, w), e) ↦ inr (d ∷ w, rw (trim_end, e) refl)
]

trim_end_nil : trim_end [] ≡ []
unfolding trim_end
trim_end_nil = refl

digit_solid : (c : ℕ) → is_digit c ≡ true → is_blank c ≡ false
unfolding is_digit is_blank
digit_solid c h = ground arith

digits_from-trim_end :
    (a : ℕ) (x : List ℕ)
    → digits_from a (trim_end x) ≡ ((digits_from a x).0, trim_end (digits_from a x).1)
unfolding digits_from
digits_from-trim_end a [] = rw (trim_end_nil) refl
digits_from-trim_end a (c ∷ p) = elim (Bool-cases (is_digit c)) [
  | inl t ↦
      rw (trim_end-cons c p (digit_solid c t), digits_from, t)
        (digits_from-trim_end (a * 10 + (c - 48)) p)
  | inr t ↦ elim (trim_end-head c p) [
    | inl e ↦ rw (digits_from, t, e) refl
    | inr (w, e) ↦ rw (digits_from, t, e, digits_from, t) refl
  ]
]

skip_blanks-blank : (c : ℕ) (p : List ℕ) → is_blank c ≡ true → skip_blanks (c ∷ p) ≡ skip_blanks p
unfolding skip_blanks
skip_blanks-blank c p t = rw (skip_blanks, t) refl

skip_blanks-solid : (c : ℕ) (p : List ℕ) → is_blank c ≡ false → skip_blanks (c ∷ p) ≡ c ∷ p
unfolding skip_blanks
skip_blanks-solid c p t = rw (skip_blanks, t) refl

trim_end-blank : (c : ℕ) (p : List ℕ) → is_blank c ≡ true → trim_end p ≡ [] → trim_end (c ∷ p) ≡ []
unfolding trim_end
trim_end-blank c p t e = rw (e, t) refl

trim_end-more : (c d : ℕ) (p w : List ℕ) → trim_end p ≡ d ∷ w → trim_end (c ∷ p) ≡ c ∷ d ∷ w
unfolding trim_end
trim_end-more c d p w e = rw (e) refl

all_blank : (y : List ℕ) → is_empty (skip_blanks (trim_end y)) ≡ is_empty (skip_blanks y)
all_blank [] = ap (λ l. is_empty (skip_blanks l)) trim_end_nil
all_blank (c ∷ p) = elim (Bool-cases (is_blank c)) [
  | inl t ↦ elim (List-cases (trim_end p)) [
    | inl e ↦ rw (trim_end-blank c p t e, skip_blanks-blank c p t, ← all_blank p, e) refl
    | inr ((d, w), e) ↦
        rw
          (
            trim_end-more c d p w e,
            skip_blanks-blank c p t,
            skip_blanks-blank c (d ∷ w) t,
            ← all_blank p,
            e,
          )
          refl
  ]
  | inr t ↦
      rw (trim_end-cons c p t, skip_blanks-solid c p t, skip_blanks-solid c (trim_end p) t) refl
]

-- The start of a value: nothing, or a byte that is no blank.
skip_blanks-head :
    (v : List ℕ)
    → (skip_blanks v ≡ [])
      ⊎ ((x : ℕ × List ℕ) × ((skip_blanks v ≡ x.0 ∷ x.1) × (is_blank x.0 ≡ false)))
unfolding skip_blanks
skip_blanks-head [] = inl refl
skip_blanks-head (c ∷ p) = elim (Bool-cases (is_blank c)) [
  | inl t ↦ rw (skip_blanks, t) (skip_blanks-head p)
  | inr t ↦ inr ((c, p), (rw (skip_blanks, t) refl, t))
]

-- What `http_parse_content_length` makes of the digits and of what follows them.
abbrev parse_pair : Bool → ℕ × List ℕ → Option ℕ
parse_pair false (n, rest) = none
parse_pair true (n, rest) =
    if ltb size_max n then none else (if is_empty (skip_blanks rest) then some n else none)

abbrev parse_at : List ℕ → Option ℕ
parse_at start = parse_pair (starts_digit start) (digits_from 0 start)

http_parse_content_length-parse_at :
    (v : List ℕ) → http_parse_content_length v ≡ parse_at (skip_blanks v)
unfolding http_parse_content_length
http_parse_content_length-parse_at v = elim (Bool-cases (starts_digit (skip_blanks v))) [
  | inl t ↦ rw (http_parse_content_length, t) refl
  | inr t ↦ rw (http_parse_content_length, t) refl
]

parse_pair-trim_end :
    (b : Bool) (n : ℕ) (rest : List ℕ) → parse_pair b (n, trim_end rest) ≡ parse_pair b (n, rest)
parse_pair-trim_end false n rest = refl
parse_pair-trim_end true n rest = rw (all_blank rest) refl

parse_at-trim_end :
    (c : ℕ) (p : List ℕ) → is_blank c ≡ false → parse_at (c ∷ trim_end p) ≡ parse_at (c ∷ p)
unfolding starts_digit
parse_at-trim_end c p t =
    let same : digits_from 0 (c ∷ trim_end p)
        ≡ ((digits_from 0 (c ∷ p)).0, trim_end (digits_from 0 (c ∷ p)).1) =
      ap (digits_from 0) (sym (trim_end-cons c p t)) ∙ digits_from-trim_end 0 (c ∷ p) in
    ap (parse_pair (is_digit c)) same
    ∙ parse_pair-trim_end (is_digit c) (digits_from 0 (c ∷ p)).0 (digits_from 0 (c ∷ p)).1

-- The blanks at its end do not change what a Content-Length says.
pub http_parse_content_length-trim :
    (v : List ℕ)
    → http_parse_content_length (trim_end (skip_blanks v))
      ≡ http_parse_content_length (skip_blanks v)
http_parse_content_length-trim v = elim (skip_blanks-head v) [
  | inl e ↦ rw (e, trim_end_nil) refl
  | inr ((c, p), (e, t)) ↦
      let goal : http_parse_content_length (c ∷ trim_end p) ≡ http_parse_content_length (c ∷ p) =
        http_parse_content_length-parse_at (c ∷ trim_end p)
        ∙ ap parse_at (skip_blanks-solid c (trim_end p) t)
        ∙ parse_at-trim_end c p t
        ∙ sym (ap parse_at (skip_blanks-solid c p t))
        ∙ sym (http_parse_content_length-parse_at (c ∷ p)) in
      rw (e, trim_end-cons c p t) goal
]
