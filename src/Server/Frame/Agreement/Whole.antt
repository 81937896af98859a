-- ===== src/Server/Frame/Agreement/Whole.antt =====
-- A request that server/src/worker.c has received, as parse_http_request of
-- common/src/http_protocol.c reads it.
use codo.Prelude.{
  ℕ, suc, ◌+◌, ◌-◌, ◌<◌, ◌≡◌, refl, sym, ap, ap₂, subst, ◌∙◌, Bool, true, false, Option, none, some,
  List, [], ◌∷◌, ◌++◌, Bool-cases, Option-cases, inl, inr, ◌⊎◌, ◌==◌, arith, length, take, drop,
}
use codo.Common.Http.{cr, lf, split_line, strip_cr, split_colon, skip_blanks}
use codo.Common.Http.Chunked.{is_empty}
use codo.Common.Http.Request.{Request, store_header_field}
use codo.Common.Http.Request.Message.{parsed, c_string, next_line, end_of_headers, parse_fields}
use codo.Server.Frame.{
  blank_line, header_end, has_byte, lines, Framing, Walk, walked, walk_line, walk_lines,
}
use codo.Server.Frame.Scan.{header_end-bounds}
use codo.Server.Frame.Limits.{Walk-cases}
use codo.Server.Frame.Agreement.Lines.{Matches, Agree, walk_field, store_header_field-Agree}
use codo.Server.Frame.Agreement.Cursor.{
  header_after, header_end-line, split_line-parts, lines_last, lines_more, take-parts, take-raw,
  drop-parts, has_byte-append, c_string-clean, strip_cr-clean,
}

walk_line-field :
    (f : Framing) (raw name v : List ℕ)
    → split_colon (strip_cr raw) ≡ some (name, v)
    → walk_line f raw ≡ walk_field f name v
unfolding walk_line walk_field
walk_line-field f raw name v e = rw (walk_line, e) refl

pub walk_line-none :
    (f : Framing) (raw : List ℕ) → split_colon (strip_cr raw) ≡ none → walk_line f raw ≡ walked f
unfolding walk_line
walk_line-none f raw e = rw (walk_line, e) refl

pub next_line-clean :
    (w raw rest : List ℕ)
    → split_line w ≡ some (raw, rest)
    → has_byte 0 raw ≡ false
    → next_line w ≡ some (strip_cr raw, rest)
unfolding next_line
next_line-clean w raw rest e n =
    rw (next_line, e, c_string-clean (strip_cr raw) (strip_cr-clean raw n)) refl

-- A line is not blank when the cursor does not stand at a blank line.
pub strip_cr-some :
    (w raw rest : List ℕ)
    → split_line w ≡ some (raw, rest)
    → blank_line w ≡ none
    → (is_empty (strip_cr raw) ≡ false) × (0 < length raw)
unfolding blank_line strip_cr split_line
strip_cr-some [] raw rest e b = absurd (ground arith)
strip_cr-some (c ∷ []) raw rest e b = absurd (ground arith)
strip_cr-some (c ∷ d ∷ p) raw rest e b = elim (Bool-cases (c == lf)) [
  | inl t ↦ absurd (ground (arith, t))
  | inr t ↦ elim (Bool-cases (d == lf)) [
    | inl u ↦ elim (Bool-cases (c == cr)) [
      | inl x ↦ absurd (ground (arith, t, u, x))
      | inr x ↦
          let same : raw ≡ c ∷ [] = ground (arith, t, u) in
          rw (same, strip_cr, x) (refl, omega arith)
    ]
    | inr u ↦ elim (Option-cases (split_line p)) [
      | inl n ↦ absurd (ground (arith, t, u, n))
      | inr ((raw', rest'), n) ↦
          let same : raw ≡ c ∷ d ∷ raw' = ground (arith, t, u, n) in
          rw (same, strip_cr) (refl, omega arith)
    ]
  ]
]

-- The parser takes the blank line as the end of the headers.
pub blank_line-next_line :
    (w : List ℕ) (k : ℕ) → blank_line w ≡ some k → next_line w ≡ some ([], drop k w)
unfolding blank_line next_line split_line strip_cr c_string
blank_line-next_line [] k h = absurd (ground arith)
blank_line-next_line (c ∷ []) k h =
    let one : k ≡ 1 = ground arith in
    let t : (c == lf) ≡ true = ground arith in rw (one, next_line, split_line, t) refl
blank_line-next_line (c ∷ d ∷ p) k h = elim (Bool-cases (c == cr)) [
  | inl t ↦
      let two : k ≡ 2 = ground (arith, t) in
      let feed : (d == lf) ≡ true = ground (arith, t) in
      let no_feed : (c == lf) ≡ false = ground (arith, t) in
      rw (two, next_line, split_line, no_feed, feed, strip_cr, t) refl
  | inr t ↦
      let one : k ≡ 1 = ground (arith, t) in
      let feed : (c == lf) ≡ true = ground (arith, t) in rw (one, next_line, split_line, feed) refl
]

Agree-some :
    (r : Request) (w : Walk) (o : Option Request) (f : Framing) (q : Request)
    → Agree w o
    → w ≡ walked f
    → o ≡ some q
    → Matches q f
Agree-some r w o f q h e e' = subst (λ x. Agree x (some q)) e (subst (λ y. Agree w y) e' h)

-- What the loop of the parser does at a line that is not blank.
pub line_step :
    (n : ℕ) (grants : ℕ → Bool) (date : List ℕ → Option ℕ) (w raw rest : List ℕ) (r q : Request)
    (f g : Framing)
    → next_line w ≡ some (strip_cr raw, rest)
    → is_empty (strip_cr raw) ≡ false
    → walk_line f raw ≡ walked g
    → Matches r f
    → parse_fields (suc n) grants date r w ≡ parsed q
    → (r' : Request) × (Matches r' g × (parse_fields n grants date r' rest ≡ parsed q))
unfolding parse_fields
line_step n grants date w raw rest r q f g next full walk h run =
    elim (Option-cases (split_colon (strip_cr raw))) [
      | inl c ↦
          let same : walked g ≡ walked f = sym walk ∙ walk_line-none f raw c in
          let kept : Matches r g = subst (λ x. Agree x (some r)) (sym same) h in
          (r, (kept, ground (arith, next, full, c)))
      | inr ((name, v), c) ↦
          let both = store_header_field-Agree date r f name v h in
          let at_field = sym (walk_line-field f raw name v c) ∙ walk in
          elim (Option-cases (store_header_field date r name (skip_blanks v))) [
            | inl e ↦ absurd (ground (arith, next, full, c, e))
            | inr (r', e) ↦ (
              r',
              (
                Agree-some r (walk_field f name v) (store_header_field date r name (skip_blanks v))
                    g r' both at_field e,
                ground (arith, next, full, c, e),
              ),
            )
          ]
    ]

pub at_end :
    (n : ℕ) (grants : ℕ → Bool) (date : List ℕ → Option ℕ) (w : List ℕ) (k : ℕ) (r q : Request)
    → blank_line w ≡ some k
    → parse_fields (suc n) grants date r w ≡ parsed q
    → end_of_headers grants r (drop k w) ≡ parsed q
unfolding parse_fields
at_end n grants date w k r q b run = ground (arith, blank_line-next_line w k b)

-- The walk over the first line, and over those behind it.
pub walk_lines-first :
    (f g : Framing) (raw : List ℕ) (ls : List (List ℕ))
    → walk_lines f (raw ∷ ls) ≡ walked g
    → (f' : Framing) × ((walk_line f raw ≡ walked f') × (walk_lines f' ls ≡ walked g))
unfolding walk_lines
walk_lines-first f g raw ls h = elim (Walk-cases (walk_line f raw)) [
  | inl (e, (k, w)) ↦ absurd (ground (arith, w))
  | inr (f', w) ↦ (f', (w, ground (arith, w)))
]

pub walk_lines_nil : (f g : Framing) → walk_lines f [] ≡ walked g → walked f ≡ walked g
unfolding walk_lines
walk_lines_nil f g h = h

-- What is known of the buffer at the cursor, at position `i`: the headers end `a` bytes on, their
-- blank line `b` bytes on, no NUL stands before that, and this is no blank line.
abbrev pub AtLine : List ℕ → ℕ → ℕ → ℕ → Type 0
AtLine w i a b =
    (header_end w i ≡ some (i + a, i + b))
    × ((blank_line w ≡ none) × (has_byte 0 (take b w) ≡ false))

-- The line at the cursor, and either the headers' end behind it or the next line.
abbrev pub Onward : List ℕ → ℕ → ℕ → ℕ → List ℕ → List ℕ → Type 0
Onward w i a b raw rest =
    ((k : ℕ) × ((blank_line rest ≡ some k)
        × ((lines (take a w) ≡ raw ∷ []) × (drop b w ≡ drop k rest))))
    ⊎ ((x : ℕ × ℕ) × (AtLine rest (i + length raw + 1) x.0 x.1
          × ((lines (take a w) ≡ raw ∷ lines (take x.0 rest)) × (drop b w ≡ drop x.1 rest))))

pub onward :
    (w raw rest : List ℕ) (i a b : ℕ)
    → split_line w ≡ some (raw, rest)
    → AtLine w i a b
    → (has_byte 0 raw ≡ false) × Onward w i a b raw rest
onward w raw rest i a b e (end, (open_line, clean)) =
    let (whole, unbroken) = split_line-parts w raw rest e in
    let (_, some_bytes) = strip_cr-some w raw rest e open_line in
    let after : header_after rest (i + length raw) ≡ some (i + a, i + b) =
      sym (header_end-line w raw rest i (i + length raw) e refl) ∙ end in
    elim (Option-cases (blank_line rest)) [
      | inr (k, blank) ↦
          let a_is : a ≡ length raw = ground (arith, blank) in
          let b_is : b ≡ length raw + 1 + k = ground (arith, blank) in
          let text : take a w ≡ raw = ap₂ take a_is whole ∙ take-raw raw (lf ∷ rest) in
          let behind : drop b w ≡ drop k rest = ap (drop b) whole ∙ drop-parts raw rest b k b_is in
          let kept : take b w ≡ raw ++ (lf ∷ take k rest) =
            ap (take b) whole ∙ take-parts raw rest b k b_is in
          let (no_nul, _) =
            has_byte-append 0 raw (lf ∷ take k rest)
              (subst (λ t. has_byte 0 t ≡ false) kept clean) in
          (no_nul, inl (k, (blank, (ap lines text ∙ lines_last raw some_bytes unbroken, behind))))
      | inl more ↦
          let later : header_end rest (i + length raw + 1) ≡ some (i + a, i + b) =
            ground (arith, more) in
          let (low, (below, _)) =
            header_end-bounds rest (i + length raw + 1) (i + a) (i + b) later in
          let a' = a - length raw - 1 in
          let b' = b - length raw - 1 in
          let a_is : a ≡ length raw + 1 + a' = omega arith in
          let b_is : b ≡ length raw + 1 + b' = omega arith in
          let text : take a w ≡ raw ++ (lf ∷ take a' rest) =
            ap (take a) whole ∙ take-parts raw rest a a' a_is in
          let behind : drop b w ≡ drop b' rest =
            ap (drop b) whole ∙ drop-parts raw rest b b' b_is in
          let kept : take b w ≡ raw ++ (lf ∷ take b' rest) =
            ap (take b) whole ∙ take-parts raw rest b b' b_is in
          let (no_nul, rest_clean) =
            has_byte-append 0 raw (lf ∷ take b' rest)
              (subst (λ t. has_byte 0 t ≡ false) kept clean) in
          let at_a : i + a ≡ i + length raw + 1 + a' = omega arith in
          let at_b : i + b ≡ i + length raw + 1 + b' = omega arith in
          let (_, tail_clean) = has_byte-append 0 (lf ∷ []) (take b' rest) rest_clean in
          (
            no_nul,
            inr (
              (a', b'),
              (
                (later ∙ ap₂ (λ x y. some (x, y)) at_a at_b, (more, tail_clean)),
                (ap lines text ∙ lines_more raw (take a' rest) unbroken, behind),
              ),
            ),
          )
    ]
