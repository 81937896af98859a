-- ===== src/Server/Frame/Agreement/Body.antt =====
-- The body that the parser of common/src/http_protocol.c takes from a request whose framing
-- server/src/worker.c has found.
use codo.Prelude.{
  ℕ, ◌+◌, ◌≤◌, ◌≡◌, refl, sym, ap, subst, ◌∙◌, Bool, true, false, List, [], ◌∷◌, ◌++◌, Bool-cases,
  inl, inr, ◌⊎◌, ltb, ◌==◌, arith, length, take, drop, length-drop, take-append_self, append_nil,
  take-append-drop, length-take_of_le, drop-append_le,
}
use codo.Common.Http.Chunked.{is_empty, Decoded, complete, partial, malformed, http_chunked_decode}
use codo.Common.Http.Chunked.Bounds.{FitsIn, http_chunked_decode-FitsIn}
use codo.Common.Http.Chunked.Extend.{http_chunked_decode-extend}
use codo.Common.Http.Request.{Request}
use codo.Common.Http.Request.Message.{parsed, chunked_body, parse_request_body, end_of_headers}
use codo.Server.Frame.{Framing}
use codo.Server.Frame.Limits.{Decoded-cases, HasBody}
use codo.Server.Frame.Agreement.Lines.{Matches}

-- The request has the body that the framing has found in the first `n` bytes of the buffer: the
-- decoded chunks, or all the bytes behind the headers.
abbrev pub IsBodyOf : List ℕ → ℕ → ℕ → Bool → Request → Type 0
IsBodyOf buf header_len n chunked q =
    ((chunked ≡ true)
      × ((used : ℕ) × ((http_chunked_decode (drop header_len buf) ≡ complete q.body used)
            × (n ≡ header_len + used))))
    ⊎ ((chunked ≡ false) × (q.body ≡ drop header_len (take n buf)))

take_all : (x : List ℕ) (n : ℕ) → n ≡ length x → take n x ≡ x
take_all x n e = ap (take n) (sym (append_nil x)) ∙ take-append_self x [] n e

is_empty-nil : (x : List ℕ) → is_empty x ≡ true → x ≡ []
is_empty-nil [] h = refl
is_empty-nil (c ∷ x) h = absurd (ground arith)

length_zero : (x : List ℕ) → length x ≤ 0 → x ≡ []
length_zero [] h = refl
length_zero (c ∷ x) h = absurd (omega arith)

some_length : (x : List ℕ) → is_empty x ≡ false → (length x == 0) ≡ false
some_length [] h = absurd (ground arith)
some_length (c ∷ x) h = ground arith

plain_body :
    (grants : ℕ → Bool) (r q : Request) (body : List ℕ)
    → r.chunked ≡ false
    → r.body ≡ []
    → r.content_length ≡ length body
    → end_of_headers grants r body ≡ parsed q
    → q.body ≡ body
unfolding end_of_headers parse_request_body
plain_body grants r q body c none_yet len run = elim (Bool-cases (is_empty body)) [
  | inl t ↦
      let nothing = is_empty-nil body t in
      let same : q.body ≡ r.body = ground (arith, c, t) in same ∙ none_yet ∙ sym nothing
  | inr t ↦
      let exact : ltb r.content_length (length body) ≡ false = ground arith in
      let some_bytes : (length body == 0) ≡ false = some_length body t in
      elim (Bool-cases (grants (length body + 1))) [
        | inl g ↦
            let same : q.body ≡ take (length body) body =
              ground (arith, c, t, exact, some_bytes, g) in
            same ∙ take_all body (length body) refl
        | inr g ↦ absurd (ground (arith, c, t, exact, some_bytes, g))
      ]
]

-- A chunked body: what the parser decodes is also what the framing has decoded, with the next
-- request's bytes behind it.
coded_body :
    (grants : ℕ → Bool) (r q : Request) (body e out : List ℕ) (used : ℕ)
    → r.chunked ≡ true
    → r.saw_content_length ≡ false
    → r.body ≡ []
    → http_chunked_decode (body ++ e) ≡ complete out used
    → used ≤ length body
    → end_of_headers grants r body ≡ parsed q
    → q.body ≡ out
unfolding end_of_headers parse_request_body chunked_body
coded_body grants r q body e out used c s none_yet whole within run =
    elim (Bool-cases (is_empty body)) [
      | inl t ↦
          let nothing = is_empty-nil body t in
          let fits : FitsIn (length (body ++ e)) (complete out used) =
            subst (FitsIn (length (body ++ e))) whole (http_chunked_decode-FitsIn (body ++ e)) in
          let zero_used : length body ≡ 0 = ap (λ l. length l) nothing in
          let same : q.body ≡ r.body = ground (arith, c, s, t) in
          same ∙ none_yet ∙ sym (length_zero out (omega (arith, fits.0)))
      | inr t ↦ elim (Bool-cases (grants (length body + 1))) [
        | inr g ↦ absurd (ground (arith, c, s, t, g))
        | inl g ↦ elim (Decoded-cases (http_chunked_decode body)) [
          | inl d ↦ absurd (ground (arith, c, s, t, g, d))
          | inr (inl (out', (used', d))) ↦ absurd (ground (arith, c, s, t, g, d))
          | inr (inr (out', (used', d))) ↦
              let same : q.body ≡ out' = ground (arith, c, s, t, g, d) in
              let again : http_chunked_decode (body ++ e) ≡ complete out' used' =
                http_chunked_decode-extend body e (rw (d) refl) ∙ d in
              let equal : complete out' used' ≡ complete out used = sym again ∙ whole in
              same ∙ ap bytes_of equal
        ]
      ]
    ]
  where
    bytes_of : Decoded → List ℕ
    bytes_of (complete out used) = out
    bytes_of (partial out used) = out
    bytes_of malformed = []

-- At the end of the headers of a request that was received.
pub end_of_headers-IsBodyOf :
    (grants : ℕ → Bool) (r q : Request) (g : Framing) (buf : List ℕ) (max_body header_len n : ℕ)
    → Matches r g
    → HasBody max_body header_len buf g n
    → n ≤ length buf
    → end_of_headers grants r (drop header_len (take n buf)) ≡ parsed q
    → IsBodyOf buf header_len n g.chunked q
end_of_headers-IsBodyOf grants r q g buf max_body header_len n (a, (b, (c, d)))
      (inl (t, (s, (out, (used, (whole, (sum, _))))))) within run =
    let body = drop header_len (take n buf) in
    let taken = length-take_of_le n buf within in
    let len = length-drop header_len (take n buf) in
    let split : drop header_len buf ≡ body ++ drop n buf =
      ap (drop header_len) (sym (take-append-drop n buf))
      ∙ drop-append_le (take n buf) (drop n buf) header_len (omega arith) in
    let same =
      coded_body grants r q body (drop n buf) out used (c ∙ t) (b ∙ s) d
        (ap http_chunked_decode (sym split) ∙ whole) (omega arith) run in
    inl (t, (used, (whole ∙ ap (λ x. complete x used) (sym same), sum)))
end_of_headers-IsBodyOf grants r q g buf max_body header_len n (a, (b, (c, d))) (inr (t, (sum, _)))
      within run =
    let body = drop header_len (take n buf) in
    let taken = length-take_of_le n buf within in
    let len = length-drop header_len (take n buf) in
    inr (t, plain_body grants r q body (c ∙ t) d (omega arith) run)
