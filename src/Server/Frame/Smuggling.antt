-- ===== src/Server/Frame/Smuggling.antt =====
-- Which header fields decide the framing of a request in server/src/worker.c.
use codo.Prelude.{
  ℕ, ◌≡◌, refl, ap, subst, ◌∙◌, Bool, true, false, ◌||◌, none, some, List, [], ◌∷◌, Bool-cases,
  Option-cases, inl, inr, ◌⊎◌, arith, length, take,
}
use codo.Common.Http.{strip_cr, same_word, split_colon}
use codo.Common.Http.Fields.{
  content_length_name, transfer_encoding_name, expect_name, chunked_value, continue_value,
}
use codo.Common.Http.Numbers.{http_parse_content_length}
use codo.Server.Frame.{
  header_end, has_byte, lines, copy_header_value, Framing, bad_framing, bad_encoding, Walk, refused,
  walked, content_length_field, transfer_encoding_field, expect_field, walk_line, walk_lines,
  bad_request, not_implemented, body_verdict, no_framing, walk_verdict, check_request_frame,
}
use codo.Server.Frame.Limits.{Walk-cases}

-- The field has this name, in any case of letters.
unfoldable pub field_is : List ℕ → List ℕ → Bool
field_is name line = elim (split_colon (strip_cr line)) [
  | none ↦ false
  | some (given, v) ↦ same_word given name
]

unfoldable pub has_field : List ℕ → List (List ℕ) → Bool
has_field name [] = false
has_field name (line ∷ rest) = field_is name line || has_field name rest

pub same_word-length : (a b : List ℕ) → same_word a b ≡ true → length a ≡ length b
unfolding same_word
same_word-length [] [] h = refl
same_word-length [] (d ∷ q) h = absurd (ground arith)
same_word-length (c ∷ p) [] h = absurd (ground arith)
same_word-length (c ∷ p) (d ∷ q) h = ground (arith, same_word-length p q)

-- What a walk has noted, compared with what it had noted before and what the field is.
abbrev Notes : Bool → Bool → Framing → Walk → Type 0
Notes length_named coding_named f (refused r g) = Unit
Notes length_named coding_named f (walked g) =
    (g.saw_content_length ≡ (f.saw_content_length || length_named))
    × (g.chunked ≡ (f.chunked || coding_named))

||_false : (b : Bool) → b ≡ (b || false)
||_false true = refl
||_false false = refl

||_true : (b : Bool) → true ≡ (b || true)
||_true true = refl
||_true false = refl

content_length_field-Notes :
    (f : Framing) (v : List ℕ) → Notes true false f (content_length_field f v)
unfolding content_length_field
content_length_field-Notes f v = elim (Option-cases (copy_header_value v 32)) [
  | inl e ↦ rw (content_length_field, e) tt
  | inr (tmp, e) ↦ elim (Option-cases (http_parse_content_length tmp)) [
    | inl e' ↦ rw (content_length_field, e, e') tt
    | inr (n, e') ↦
        rw (content_length_field, e, e') (||_true f.saw_content_length, ||_false f.chunked)
  ]
]

transfer_encoding_field-Notes :
    (f : Framing) (v : List ℕ) → Notes false true f (transfer_encoding_field f v)
unfolding transfer_encoding_field
transfer_encoding_field-Notes f v = elim (Option-cases (copy_header_value v 32)) [
  | inl e ↦ rw (transfer_encoding_field, e) tt
  | inr (tmp, e) ↦ elim (Bool-cases (same_word tmp chunked_value)) [
    | inl t ↦ rw (transfer_encoding_field, e, t) (||_false f.saw_content_length, ||_true f.chunked)
    | inr t ↦ rw (transfer_encoding_field, e, t) tt
  ]
]

expect_field-Notes : (f : Framing) (v : List ℕ) → Notes false false f (expect_field f v)
unfolding expect_field
expect_field-Notes f v = elim (Option-cases (copy_header_value v 32)) [
  | inl e ↦ rw (expect_field, e) (||_false f.saw_content_length, ||_false f.chunked)
  | inr (tmp, e) ↦ elim (Bool-cases (same_word tmp continue_value)) [
    | inl t ↦ rw (expect_field, e, t) (||_false f.saw_content_length, ||_false f.chunked)
    | inr t ↦ rw (expect_field, e, t) (||_false f.saw_content_length, ||_false f.chunked)
  ]
]

walk_line-Notes :
    (f : Framing) (line : List ℕ)
    → Notes
        (field_is content_length_name line)
        (field_is transfer_encoding_name line)
        f
        (walk_line f line)
unfolding walk_line field_is
walk_line-Notes f line = elim (Option-cases (split_colon (strip_cr line))) [
  | inl e ↦ rw (walk_line, field_is, e) (||_false f.saw_content_length, ||_false f.chunked)
  | inr ((name, v), e) ↦ elim (Bool-cases (same_word name content_length_name)) [
    | inl t ↦
        let other : same_word name transfer_encoding_name ≡ false =
          elim (Bool-cases (same_word name transfer_encoding_name)) [
            | inl u ↦ absurd (
                omega (
                  arith,
                  same_word-length name content_length_name t,
                  same_word-length name transfer_encoding_name u,
                ))
            | inr u ↦ u
          ] in
        rw (walk_line, field_is, e, t, other) (content_length_field-Notes f v)
    | inr t ↦ elim (Bool-cases (same_word name transfer_encoding_name)) [
      | inl u ↦ rw (walk_line, field_is, e, t, u) (transfer_encoding_field-Notes f v)
      | inr u ↦ elim (Bool-cases (same_word name expect_name)) [
        | inl x ↦ rw (walk_line, field_is, e, t, u, x) (expect_field-Notes f v)
        | inr x ↦
            rw (walk_line, field_is, e, t, u, x) (||_false f.saw_content_length, ||_false f.chunked)
      ]
    ]
  ]
]

||_assoc : (a b c : Bool) → (a || b || c) ≡ (a || (b || c))
||_assoc true b c = refl
||_assoc false b c = refl

-- A walk that was not refused has noted the two framing fields exactly where they stand.
pub walk_lines-Notes :
    (f : Framing) (ls : List (List ℕ))
    → Notes
        (has_field content_length_name ls)
        (has_field transfer_encoding_name ls)
        f
        (walk_lines f ls)
unfolding walk_lines has_field
walk_lines-Notes f [] = (||_false f.saw_content_length, ||_false f.chunked)
walk_lines-Notes f (line ∷ rest) = elim (Walk-cases (walk_line f line)) [
  | inl (r, (g, w)) ↦ rw (walk_lines, w) tt
  | inr (g, w) ↦
      let (saw, coding) =
        subst (Notes (field_is content_length_name line) (field_is transfer_encoding_name line) f) w
          (walk_line-Notes f line) in
      elim (Walk-cases (walk_lines g rest)) [
        | inl (r, (k, w')) ↦ rw (walk_lines, w, w') tt
        | inr (k, w') ↦
            let (saw', coding') =
              subst
                (Notes (has_field content_length_name rest) (has_field transfer_encoding_name rest)
                  g)
                w' (walk_lines-Notes g rest) in
            rw (walk_lines, w, w')
              (
                saw'
                    ∙ ap (λ b. b || has_field content_length_name rest) saw
                    ∙ ||_assoc f.saw_content_length (field_is content_length_name line)
                        (has_field content_length_name rest),
                coding'
                    ∙ ap (λ b. b || has_field transfer_encoding_name rest) coding
                    ∙ ||_assoc f.chunked (field_is transfer_encoding_name line)
                        (has_field transfer_encoding_name rest),
              )
      ]
]

-- A request that declares both a length and a transfer coding is refused, however the names are
-- cased and in whichever order the fields stand.
pub check_request_frame-refuses_both :
    (buf : List ℕ) (max_body hdr_end header_len : ℕ)
    → header_end buf 0 ≡ some (hdr_end, header_len)
    → has_field content_length_name (lines (take hdr_end buf)) ≡ true
    → has_field transfer_encoding_name (lines (take hdr_end buf)) ≡ true
    → ((check_request_frame buf max_body).0 ≡ bad_request)
      ⊎ ((check_request_frame buf max_body).0 ≡ not_implemented)
unfolding check_request_frame walk_verdict body_verdict
check_request_frame-refuses_both buf max_body hdr_end header_len e cl te =
    let ls = lines (take hdr_end buf) in
    elim (Bool-cases (has_byte 0 (take header_len buf))) [
      | inl t ↦ inl (rw (check_request_frame, e, t) refl)
      | inr t ↦ elim (Walk-cases (walk_lines no_framing ls)) [
        | inl (bad_framing, (f, w)) ↦ inl (rw (check_request_frame, e, t, w, walk_verdict) refl)
        | inl (bad_encoding, (f, w)) ↦ inr (rw (check_request_frame, e, t, w, walk_verdict) refl)
        | inr (f, w) ↦
            let (saw, coding) =
              subst
                (Notes (has_field content_length_name ls) (has_field transfer_encoding_name ls)
                  no_framing)
                w (walk_lines-Notes no_framing ls) in
            let saw' : f.saw_content_length ≡ true = saw ∙ cl in
            let coding' : f.chunked ≡ true = coding ∙ te in
            inl (rw (check_request_frame, e, t, w, walk_verdict, body_verdict, coding', saw') refl)
      ]
    ]
